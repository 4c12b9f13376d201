-- ===== src/Runtime/Record.antt =====
-- `TxnContext.record_tool_call` and `approve_irreversible`: the interception of one tool call. The
-- args are bound already, since binding them is Python's.
use pherix.Base.{String, Option, none, some, ◌∷◌, ◌++◌, ◌==◌, get, any, if◌then◌else◌}
use pherix.Values.{Args}
use pherix.Effects.{Effect, EffectStatus, Outcome, new_effect}
use pherix.Errors.{
  Result, ok, err, Exec, lift, gets, modify, ◌>>=◌, ◌>>◌, stage, compensator_not_registered,
  value_error,
}
use pherix.Transaction.{next_index, add_effect}
use pherix.Adapter.{Adapter, ToolSpec, Marks, Run}
use pherix.Audit.{record_effect}
use pherix.Policy.Engine.{evaluate, try_evaluate}
use pherix.Runtime.State.{
  Env, State, guard_open, guard_thread, resolve_adapter, registered, on_world, on_txn, on_audit,
  on_context, save_effect, set_effect,
}

abbrev or_else : Option String → Option String → Option String
or_else none d = d
or_else (some a) d = some a

-- What the tool's handle has recorded on the effect.
abbrev pub marked : Marks → Effect → Effect
marked m e = record e {
  read_keys = e.read_keys ++ m.read_keys;
  write_keys = e.write_keys ++ m.write_keys;
  snapshot = elim m.snapshot [ none ↦ e.snapshot | some h ↦ some h ];
}

module _ {W : Type 0} where
  -- Catches a compensator's misspelt name before any state changes.
  abbrev pub check_compensator : Env W → ToolSpec W → Result (Unit {0})
  check_compensator env spec = elim spec.compensator [
    | none ↦ ok tt
    | some name ↦ elim (get name env.registry) [
      | none ↦ err (compensator_not_registered name spec.name)
      | some c ↦ ok tt
    ]
  ]

  unfoldable pub build_effect : Env W → ToolSpec W → Adapter W → Args → State W → Effect
  unfolding new_effect next_index
  build_effect env spec a args s =
      new_effect env.digest s.txn.txn_id (next_index s.txn) spec.name args spec.resource
        a.supports_rollback spec.compensator (or_else env.active_actor env.actor)

  -- The policy at stage time: it raises, or in a dry run its verdicts are kept.
  unfoldable pub stage_policy : Env W → Effect → Exec (State W) (Unit {0})
  stage_policy env e s =
      if env.dry_run
      then (do
        verdicts ← on_context env (try_evaluate env.policy e stage)
        modify (λ (s : State W). record s { stage_verdicts = s.stage_verdicts ++ verdicts }))
          s
      else on_context env (evaluate env.policy e stage) s

  -- The irreversible lane: the effect is an intent, and the agent has a sentinel.
  unfoldable pub stage_effect : Effect → Exec (State W) Outcome
  stage_effect e s =
      let result = Outcome.staged_result e.effect_id in
      (ok result, save_effect (record e { result = result; status = EffectStatus.staged }) s)

  abbrev pub settle : Effect → Run W → State W → Result Outcome × State W
  settle e r s = elim r.result [
    | err x ↦ (err x, save_effect (record (marked r.marks e) { status = EffectStatus.failed }) s)
    | ok v ↦ (
      ok (Outcome.returned v),
      save_effect
          (record (marked r.marks e) { result = Outcome.returned v; status = EffectStatus.applied })
          s,
    )
  ]

  -- `adapter.apply` within its `try`, on an effect of the journal.
  unfoldable pub apply_effect : Adapter W → ToolSpec W → Effect → Exec (State W) Outcome
  apply_effect a spec e s =
      let r = a.apply e spec.fn s.world in settle e r (record s { world = r.world })

  -- The reversible lane: the snapshot precedes the run.
  unfoldable pub run_live : Adapter W → ToolSpec W → Effect → Exec (State W) Outcome
  unfolding apply_effect
  run_live a spec e = do
    handle ← on_world (a.snapshot e)
    let held : Effect = record e { snapshot = some handle }
    modify (set_effect held)
    apply_effect a spec held

  abbrev pub journalled : Effect → Exec (State W) (Unit {0})
  journalled e = do on_txn (add_effect e); modify (on_audit (record_effect e))

  abbrev pub dispatch : Adapter W → ToolSpec W → Effect → Exec (State W) Outcome
  dispatch a spec e s = if e.reversible then run_live a spec e s else stage_effect e s

  unfoldable pub record_tool_call : Env W → String → Args → Exec (State W) Outcome
  unfolding build_effect stage_policy run_live stage_effect
  record_tool_call env name args = do
    guard_thread env
    guard_open
    spec ← lift (registered env name)
    lift (check_compensator env spec)
    a ← lift (resolve_adapter env spec.resource)
    e ← gets (build_effect env spec a args)
    stage_policy env e
    journalled e
    dispatch a spec e

  unfoldable pub approve_irreversible : Env W → String → Exec (State W) (Unit {0})
  approve_irreversible env effect_id = do
    guard_thread env
    guard_open
    known ← gets (λ (s : State W). any (λ (e : Effect). e.effect_id == effect_id) s.txn.effects)
    (λ s.
        if known
        then (ok tt, record s { approvals = effect_id ∷ s.approvals })
        else (err (value_error effect_id), s))
