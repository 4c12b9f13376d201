-- ===== src/Replay.antt =====
-- pherix/core/replay.py: the journal of a transaction run forward again, against fresh adapters. The
-- replay's own journal, its target tables and the world are those of a `State`, whose other fields a
-- replay has no use for. The messages of the outcomes are left out.
pub mod Source
pub mod Walk
pub mod Rows
pub mod Lanes
pub mod Reuse
pub mod Verdicts
pub mod Success
pub mod Restored
use pherix.Base.{
  ℤ, pos, negsuc, String, Bool, true, false, not, ◌&&◌, Option, none, some, List, [], ◌∷◌, ◌++◌,
  ◌==◌, Dict, get, map, select, reverse, if◌then◌else◌,
}
use pherix.Values.{Value}
use pherix.Values.{Snapshot}
use pherix.Adapter.{Adapter}
use pherix.Effects.{Effect, EffectStatus, Outcome, new_effect, is_applied}
use pherix.Errors.{
  Result, ok, err, and_then, Exec, pure, raise, lift, gets, modify, skip, ◌>>=◌, ◌>>◌, Conflict,
  stage, policy_violation, runtime_error, value_error, key_error, raised, Reason,
}
use pherix.Transaction.{Transaction, TxnState, next_index, add_effect}
use pherix.Adapter.{Adapter, ToolSpec, unique}
use pherix.Audit.{Audit, EffectRow, record_transaction, record_effect}
use pherix.Policy.Context.{Context, Spent}
use pherix.Policy.Engine.{Policy, list_denial}
use pherix.Isolation.{check_conflicts}
use pherix.Runtime.State.{
  Env, State, on_world, on_txn, on_audit, set_effect, move_to, each_transactional,
}
use pherix.Runtime.Record.{journalled, run_live}
use pherix.Replay.Source.{Codec, load_source_effects, compare_results, get_effects}
use pherix.Replay.Walk.{
  Mode, verify, Replaying, ReplayStatus, success, diverged, failure, EffectOutcome, divergence,
  add_divergence, on_run, walk_source,
}

-- `if not source_rows: raise`
abbrev pub load_rows : Codec → String → List EffectRow → Result (List EffectRow)
load_rows codec txn_id [] = err (value_error txn_id)
load_rows codec txn_id (row ∷ rows) = load_source_effects codec (row ∷ rows)

abbrev pub source_rows : Codec → String → Audit → Result (List EffectRow)
source_rows codec txn_id source = load_rows codec txn_id (get_effects txn_id source)

abbrev pub isolation_outcome : EffectOutcome
isolation_outcome = record {
  index = negsuc 0;
  tool = "<isolation>";
  resource = "<commit>";
  status = divergence;
  recorded_result = Outcome.missing;
  replayed_result = Outcome.missing;
}

module _ {W : Type 0} where
  -- The diff at the end: under `verify` a conflict is a divergence.
  abbrev pub note_conflicts : Mode → List Conflict → Replaying W → Replaying W
  note_conflicts verify (k ∷ ks) s =
      add_divergence isolation_outcome
        (record s { isolation_conflicts = k ∷ ks; status = diverged })
  note_conflicts _ ks s = record s { isolation_conflicts = ks }

  abbrev pub record_replay : Replaying W → Replaying W
  record_replay s = record s { run = on_audit (record_transaction s.run.txn false none) s.run }

  abbrev pub report_divergence : Mode → Bool → List EffectOutcome → Exec (Replaying W) (Unit {0})
  report_divergence verify true (_ ∷ _) = raise (raised "ReplayDivergence")
  report_divergence _ _ _ = skip

module _ {W : Type 0} (env : Env W) where
  -- The backward half of `_finalise`; `adapters[effect.resource]`.
  abbrev pub restore_through : String → Snapshot → Option (Adapter W) → Exec (State W) (Unit {0})
  restore_through resource handle none = raise (key_error resource)
  restore_through resource handle (some a) = on_world (a.restore handle)

  abbrev pub restore_from : String → Option Snapshot → Exec (State W) (Unit {0})
  restore_from resource none = skip
  restore_from resource (some handle) = restore_through resource handle (get resource env.adapters)

  abbrev pub restore_one : Effect → Exec (State W) (Unit {0})
  restore_one e = restore_from e.resource e.snapshot

  unfoldable pub restore_all : List Effect → Exec (State W) (Unit {0})
  restore_all [] = skip
  restore_all (e ∷ es) = restore_one e >> restore_all es

  -- `_finalise`
  unfoldable pub finalise_commit : Exec (State W) (Unit {0})
  finalise_commit = do
    on_world (each_transactional (λ a. a.commit_txn) (unique env.adapters))
    move_to TxnState.committed

  unfoldable pub finalise_rollback : Exec (State W) (Unit {0})
  unfolding restore_all
  finalise_rollback = do
    (λ s. restore_all (reverse s.txn.effects) s)
    on_world (each_transactional (λ a. a.rollback_txn) (unique env.adapters))
    move_to TxnState.rolled_back

  abbrev pub close_replay : List EffectOutcome → Exec (Replaying W) (Unit {0})
  close_replay [] = on_run finalise_commit
  close_replay (_ ∷ _) = do
    modify (λ (s : Replaying W). record s { status = diverged })
    on_run finalise_rollback

  abbrev pub catch_failure : Result (Unit {0}) → Exec (Replaying W) (Unit {0})
  catch_failure (ok _) = skip
  catch_failure (err x) = do
    modify (λ (s : Replaying W). record s { status = failure })
    on_run finalise_rollback
    raise x

module _ {W : Type 0} (env : Env W) (codec : Codec) where
  -- The block of the `try`.
  unfoldable pub replay_block : Mode → List EffectRow → Exec (Replaying W) (Unit {0})
  unfolding walk_source check_conflicts finalise_commit finalise_rollback
  replay_block mode source = do
    walk_source env codec mode source
    conflicts ← (λ s. (check_conflicts s.run.txn.effects env.adapters s.run.world, s))
    modify (note_conflicts mode conflicts)
    (λ s. close_replay env s.divergences s)

  unfoldable pub replay_bracket : Mode → List EffectRow → Exec (Replaying W) (Unit {0})
  unfolding replay_block
  replay_bracket mode source s = let (r, s') = replay_block mode source s in catch_failure env r s'

  abbrev pub begin_replay : Exec (Replaying W) (Unit {0})
  begin_replay = on_run (on_world (each_transactional (λ a. a.begin_txn) (unique env.adapters)))

  -- From the `try` on.
  abbrev pub bracketed : Mode → Bool → List EffectRow → Exec (Replaying W) (Unit {0})
  bracketed mode raise_on_divergence effects = do
    replay_bracket mode effects
    (λ s. report_divergence mode raise_on_divergence s.divergences s)

  -- `replay`, on a state that has the new transaction.
  unfoldable pub replay : Mode → Bool → String → Audit → Exec (Replaying W) (Unit {0})
  unfolding get_effects load_source_effects record_transaction replay_bracket
  replay mode raise_on_divergence txn_id source = do
    effects ← lift (source_rows codec txn_id source)
    modify record_replay
    begin_replay
    bracketed mode raise_on_divergence effects

-- `Transaction(policy=policy, replayed_from=txn_id)`, with the target tables and the world.
unfoldable pub new_replay : {W : Type 0} → String → String → Context → Audit → W → Replaying W
new_replay replay_txn_id txn_id context target world = record {
  run = record {
    txn = record {
      txn_id = replay_txn_id;
      state = TxnState.open_;
      effects = [];
      replayed_from = some txn_id;
    };
    audit = target;
    approvals = [];
    finished = false;
    pending = false;
    context = context;
    stage_verdicts = [];
    world = world;
  };
  status = success;
  outcomes = [];
  divergences = [];
  isolation_conflicts = [];
}
