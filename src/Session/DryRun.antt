-- ===== src/Session/DryRun.antt =====
-- `dry_run` (pherix/core/dry_run.py) and `TxnContext._dry_run_finalise`. The structural diff of the
-- adapters that are StateDiffable is left out of the result.
use pherix.Base.{String, Bool, true, Option, none, some, List, ◌++◌, all, select, if◌then◌else◌}
use pherix.Effects.{Effect}
use pherix.Errors.{Result, ok, err, Exec, pure, raise, gets, modify, ◌>>=◌, ◌>>◌, Exc}
use pherix.Audit.{record_verdicts}
use pherix.Policy.Context.{PolicyVerdict}
use pherix.Policy.Engine.{collect_verdicts}
use pherix.Isolation.{abort}
use pherix.Runtime.State.{Env, State, on_context, on_audit}
use pherix.Runtime.Unwind.{rollback}
use pherix.Runtime.Commit.{is_pending}
use pherix.Session.{
  Process, Agent, Naming, run_agent, begin_adapters, new_context, register, unregister, begun,
}

pub record DryRunResult : Type 0 where
  pub txn_id : String
  pub journal : List Effect
  pub would_have_fired : List Effect
  pub policy_verdicts : List PolicyVerdict
  pub is_clean : Bool

unfoldable pub result_of : {W : Type 0} → State W → List PolicyVerdict → DryRunResult
result_of s verdicts = record {
  txn_id = s.txn.txn_id;
  journal = s.txn.effects;
  would_have_fired = select is_pending s.txn.effects;
  policy_verdicts = verdicts;
  is_clean = all (λ (v : PolicyVerdict). v.allowed) verdicts;
}

module _ {W : Type 0} (env : Env W) where
  -- `_dry_run_finalise`: the journal of the result is read before the rollback.
  unfoldable pub dry_run_finalise : Exec (State W) DryRunResult
  unfolding collect_verdicts result_of record_verdicts rollback
  dry_run_finalise = do
    commit_verdicts ← (λ s. on_context env (collect_verdicts env.policy s.txn.effects) s)
    verdicts ← gets (λ (s : State W). s.stage_verdicts ++ commit_verdicts)
    result ← gets (λ (s : State W). result_of s verdicts)
    modify (λ s. on_audit (record_verdicts s.txn.txn_id verdicts) s)
    rollback env
    pure result

  abbrev pub finalise_open : Exec (State W) (Option DryRunResult)
  finalise_open s =
      if s.finished then (ok none, s) else (do result ← dry_run_finalise; pure (some result)) s

  abbrev on_error : {A : Type 0} → Exc → Exec (State W) A
  on_error x s = if s.finished then (err x, s) else (do rollback env; raise x) s

  abbrev pub catch_error : {A : Type 0} → Result A → Exec (State W) A
  catch_error (ok a) = pure a
  catch_error (err x) = on_error x

  -- The `try` around the block of `dry_run`; what it gives is `ctx.result`.
  unfoldable pub run_dry_block : (W → W) → Agent → Exec (State W) (Option DryRunResult)
  unfolding run_agent dry_run_finalise rollback
  run_dry_block wait body s =
      let (r, s') = (do run_agent env wait body; finalise_open) s in catch_error r s'

-- `dry_run`: the context's `dry_run` flag is set, and the isolation is the default.
unfoldable pub dry_run :
    {W : Type 0} → Env W → Naming → (W → W) → Agent → Exec (Process W) (Option DryRunResult)
unfolding begin_adapters new_context register unregister run_dry_block
dry_run env names wait body p =
    let dry_env = record env { dry_run = true; isolation = abort } in
    begun dry_env names (run_dry_block dry_env wait body) p (begin_adapters dry_env names p.world)
