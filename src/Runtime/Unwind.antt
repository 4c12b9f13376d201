-- ===== src/Runtime/Unwind.antt =====
-- The backward folds: `TxnContext.rollback` and `_partial_unwind`.
pub mod Landing
pub mod Returns
use pherix.Base.{
  ℤ, negsuc, String, Bool, true, false, not, ◌||◌, Option, none, some, List, [], ◌∷◌, reverse, get,
  if◌then◌else◌,
}
use pherix.Values.{Snapshot, Value}
use pherix.Effects.{Effect, EffectStatus, is_applied, new_effect}
use pherix.Errors.{
  Result, ok, err, Exec, pure, raise, lift, gets, modify, skip, ◌>>=◌, ◌>>◌, raised,
}
use pherix.Transaction.{TxnState}
use pherix.Adapter.{Adapter, ToolSpec, Run, unique}
use pherix.Runtime.State.{
  Env, State, guard_open, guard_thread, resolve_adapter, on_world, save_effect, move_to,
  each_transactional,
}

module _ {W : Type 0} (env : Env W) where
  abbrev pub compensated : Effect → Effect
  compensated e = record e { status = EffectStatus.compensated }

  -- `if effect.status is EffectStatus.APPLIED: ...` in the fold of `rollback`.
  abbrev pub settle_restored : Effect → Exec (State W) (Unit {0})
  settle_restored e s = (ok tt, if is_applied e.status then save_effect (compensated e) s else s)

  unfoldable pub undo_effect : Effect → Exec (State W) (Unit {0})
  undo_effect e = elim e.snapshot [
    | none ↦ skip
    | some handle ↦ do
      a ← lift (resolve_adapter env e.resource)
      on_world (a.restore handle)
      settle_restored e
  ]

  -- Over the effects newest first.
  unfoldable pub undo_effects : List Effect → Exec (State W) (Unit {0})
  undo_effects [] = skip
  undo_effects (e ∷ es) = undo_effect e >> undo_effects es

  abbrev pub adapters_rollback : Exec (State W) (Unit {0})
  adapters_rollback = on_world (each_transactional (λ a. a.rollback_txn) (unique env.adapters))

  abbrev pub finish : Exec (State W) (Unit {0})
  finish = modify (λ (s : State W). record s { finished = true })

  unfoldable pub rollback : Exec (State W) (Unit {0})
  unfolding undo_effects
  rollback = do
    guard_thread env
    guard_open
    effects ← gets (λ (s : State W). s.txn.effects)
    undo_effects (reverse effects)
    adapters_rollback
    move_to TxnState.rolled_back
    finish

  -- Restoring a reversible effect that was applied; `restore(None)` is the adapter's error.
  abbrev pub restore_held : Option Snapshot → Adapter W → Exec (State W) (Unit {0})
  restore_held none a = raise (raised "restore(None)")
  restore_held (some handle) a = on_world (a.restore handle)

  unfoldable pub unwind_reversible : Effect → Exec (State W) Bool
  unwind_reversible e = do
    a ← lift (resolve_adapter env e.resource)
    restore_held e.snapshot a
    modify (save_effect (compensated e))
    pure false

  -- The carrier of a compensator's run, which the journal never holds.
  abbrev pub carrier : String → Effect → String → ToolSpec W → Effect
  carrier txn_id e name spec =
      new_effect env.digest txn_id (negsuc 0) name e.args spec.resource false none none

  -- `try: ... except Exception: stuck = True`, around the run.
  abbrev pub fired : Effect → Result Value → Exec (State W) Bool
  fired e (err x) s = (ok true, s)
  fired e (ok v) s = (ok false, save_effect (compensated e) s)

  abbrev pub fire_compensator : Effect → String → ToolSpec W → Adapter W → Exec (State W) Bool
  fire_compensator e name spec a s =
      let r = a.apply (carrier s.txn.txn_id e name spec) spec.fn s.world in
      fired e r.result (record s { world = r.world })

  -- The compensator that an effect names, where the registry has it.
  abbrev pub compensator_of : Effect → Option (String × ToolSpec W)
  compensator_of e = elim e.compensator [
    | none ↦ none
    | some name ↦ elim (get name env.registry) [ none ↦ none | some spec ↦ some (name, spec) ]
  ]

  abbrev pub compensate : Effect → Option (String × ToolSpec W) → Exec (State W) Bool
  compensate e none = pure true
  compensate e (some (name, spec)) = do
    a ← lift (resolve_adapter env spec.resource)
    fire_compensator e name spec a

  unfoldable pub unwind_irreversible : Effect → Exec (State W) Bool
  unwind_irreversible e = compensate e (compensator_of e)

  -- Whether this effect leaves the transaction stuck.
  unfoldable pub unwind_effect : Effect → Exec (State W) Bool
  unfolding unwind_reversible unwind_irreversible
  unwind_effect e s =
      if not (is_applied e.status)
      then (ok false, s)
      else if e.reversible
      then unwind_reversible e s
      else unwind_irreversible e s

  unfoldable pub unwind_effects : List Effect → Exec (State W) Bool
  unwind_effects [] = pure false
  unwind_effects (e ∷ es) = do here ← unwind_effect e; rest ← unwind_effects es; pure (here || rest)

  -- The transactional adapters roll back on a stuck transaction too.
  abbrev pub land : Bool → Exec (State W) (Unit {0})
  land is_stuck = do
    adapters_rollback
    move_to (if is_stuck then TxnState.stuck else TxnState.rolled_back)
    finish

  abbrev pub unwind_journal : List Effect → Exec (State W) (Unit {0})
  unwind_journal effects = do is_stuck ← unwind_effects (reverse effects); land is_stuck

  unfoldable pub partial_unwind : Exec (State W) (Unit {0})
  unfolding unwind_effects
  partial_unwind = do move_to TxnState.partial; (λ s. unwind_journal s.txn.effects s)
