-- ===== src/Runtime/State.antt =====
-- `TxnContext`: what it is given, what it keeps, and its guards. The objects of the journal are
-- shared by reference in the source; here the journal holds their current values, and an effect is
-- written back by its index.
use pherix.Base.{
  ℕ, ◌==ℕ◌, ◌==ℤ◌, String, Bool, not, ◌||◌, Option, none, some, List, [], ◌∷◌, Dict, get,
  if◌then◌else◌,
}
use pherix.Effects.{Effect, Digest}
use pherix.Errors.{
  Result, ok, err, Exec, skip, ◌>>◌, transaction_state, wrong_thread, no_adapter, key_error,
}
use pherix.Transaction.{Transaction, TxnState, is_open, transition}
use pherix.Adapter.{Adapter, ToolSpec}
use pherix.Audit.{Audit, update_effect, update_transaction_state}
use pherix.Policy.Context.{Context, PolicyVerdict}
use pherix.Policy.Engine.{Policy}
use pherix.Policy.Readers.{sql_reader}
use pherix.Isolation.{Isolation}

-- The arguments of `TxnContext`, the tool registry, and the context variables of the call.
pub record Env (W : Type 0) : Type 0 where
  pub adapters : Dict (Adapter W)
  pub registry : Dict (ToolSpec W)
  pub policy : Policy
  pub digest : Digest
  pub isolation : Isolation
  pub in_run_txn : Bool
  pub dry_run : Bool
  pub actor : Option String
  -- the value of `active_actor` in the block, which `agent_txn` seeds with the actor and `acting_as`
  -- rebinds: any value here
  pub active_actor : Option String
  pub owner_thread : ℕ
  -- `threading.get_ident()`
  pub thread : ℕ

pub record State (W : Type 0) : Type 0 where
  pub txn : Transaction
  pub audit : Audit
  pub approvals : List String
  pub finished : Bool
  pub pending : Bool
  pub context : Context
  pub stage_verdicts : List PolicyVerdict
  pub world : W

abbrev pub write_back : Effect → List Effect → List Effect
write_back e [] = []
write_back e (x ∷ xs) = if x.index ==ℤ e.index then e ∷ xs else x ∷ write_back e xs

module _ {W : Type 0} where
  unfoldable pub guard_open : Exec (State W) (Unit {0})
  guard_open s =
      if s.finished || not (is_open s.txn.state) then (err transaction_state, s) else (ok tt, s)

  unfoldable pub guard_thread : Env W → Exec (State W) (Unit {0})
  guard_thread env s = if env.thread ==ℕ env.owner_thread then (ok tt, s) else (err wrong_thread, s)

  -- `_resolve_adapter`
  unfoldable pub resolve_adapter : Env W → String → Result (Adapter W)
  resolve_adapter env resource = elim (get resource env.adapters) [
    | none ↦ err (no_adapter resource)
    | some a ↦ ok a
  ]

  -- `REGISTRY.get`
  unfoldable pub registered : Env W → String → Result (ToolSpec W)
  registered env name = elim (get name env.registry) [ none ↦ err (key_error name) | some t ↦ ok t ]

  -- An action of an adapter, on the world of the state.
  abbrev pub on_world {ℓ} : {A : Type ℓ} → Exec W A → Exec (State W) A
  on_world m s = let (r, w) = m s.world in (r, record s { world = w })

  abbrev pub on_txn {ℓ} : {A : Type ℓ} → Exec Transaction A → Exec (State W) A
  on_txn m s = let (r, t) = m s.txn in (r, record s { txn = t })

  abbrev pub on_audit : (Audit → Audit) → State W → State W
  on_audit f s = record s { audit = f s.audit }

  -- An evaluation of the policy, with the live journal and a reader over the live world.
  abbrev pub on_context {ℓ} : {A : Type ℓ} → Env W → Exec Context A → Exec (State W) A
  on_context env m s =
      let ctx : Context = record s.context {
        journal = s.txn.effects;
        reader = some (sql_reader env.adapters s.world);
      } in
      let (r, ctx') = m ctx in (r, record s { context = ctx' })

  -- The effect object has changed: the journal shows it.
  abbrev pub set_effect : Effect → State W → State W
  set_effect e s = record s { txn = record s.txn { effects = write_back e s.txn.effects } }

  -- The effect object has changed, and `audit.update_effect` is called on it.
  unfoldable pub save_effect : Effect → State W → State W
  save_effect e s = on_audit (update_effect e) (set_effect e s)

  -- `txn.transition(to)`, and the audit row.
  unfoldable pub move_to : TxnState → Exec (State W) (Unit {0})
  unfolding transition
  move_to to = do
    on_txn (transition to)
    (λ s. (ok tt, on_audit (update_transaction_state s.txn.txn_id to) s))

  abbrev pub if_transactional : (Adapter W → Exec W (Unit {0})) → Adapter W → Exec W (Unit {0})
  if_transactional op a w = if a.transactional then op a w else (ok tt, w)

  -- `for a in _unique(adapters): if isinstance(a, TransactionalResourceAdapter): ...`
  unfoldable pub each_transactional :
      (Adapter W → Exec W (Unit {0})) → List (Adapter W) → Exec W (Unit {0})
  each_transactional op [] = skip
  each_transactional op (a ∷ rest) = if_transactional op a >> each_transactional op rest
