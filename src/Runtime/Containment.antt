-- ===== src/Runtime/Containment.antt =====
-- What `rollback` and `_partial_unwind` do to the outside world. `P` is a property of it that
-- restoring a snapshot and rolling an adapter back keep, such as which mails were sent.
use pherix.Base.{
  String, ◌≡◌, refl, sym, subst, Bool, true, false, not, ◌||◌, Option, none, some, List, [], ◌∷◌,
  Dict, All, all, get, reverse, ◌==ℕ◌, all-reverse, ◌∙◌, arith, &&-true, Bool-cases, Option-cases,
  inl, inr, if◌then◌else◌,
}
use pherix.Values.{Snapshot}
use pherix.Effects.{Effect, is_applied}
use pherix.Errors.{ok, Exec, ◌>>=◌, ◌>>◌, lift, gets, modify, pure, skip}
use pherix.Transaction.{TxnState, allowed, transition}
use pherix.Adapter.{Adapter, unique}
use pherix.Runtime.State.{
  Env, State, guard_open, guard_thread, resolve_adapter, on_world, save_effect, move_to,
  each_transactional,
}
use pherix.Runtime.Keeps.{
  Keeps, UndoKeeps, InWorld, Keeps-bind, Keeps-then, Keeps-if, Keeps-gets, Keeps-modify,
  Keeps-on_world, Keeps-move_to, Keeps-each, All-get, All-unique,
}
use pherix.Runtime.Unwind.{
  undo_effect, undo_effects, rollback, adapters_rollback, finish, unwind_effect, unwind_effects,
  land, unwind_journal, partial_unwind, unwind_reversible, unwind_irreversible, compensated,
  restore_held, settle_restored,
}

-- No tool has run for an irreversible effect of the journal.
abbrev pub is_contained : Effect → Bool
is_contained e = e.reversible || not (is_applied e.status)

module _ {W : Type 0} (P : W → Type 0) (env : Env W)
    (undo : All (λ (e : String × Adapter W). UndoKeeps P e.1) env.adapters) where
  Keeps-adapter :
      {A : Type 0} (r : String) (f : Adapter W → Exec (State W) A)
      → ((a : Adapter W) → UndoKeeps P a → Keeps (InWorld P) (f a))
      → Keeps (InWorld P) (lift (resolve_adapter env r) >>= f)
  unfolding resolve_adapter
  Keeps-adapter r f k = elim (Option-cases (get r env.adapters)) [
    | inl absent ↦ record { at = λ s p. rw (absent, resolve_adapter) p }
    | inr (a, found) ↦ record {
      at = λ s p.
          rw (found, resolve_adapter)
            ((k a (All-get (UndoKeeps P) env.adapters r a undo found)).at s p);
    }
  ]

  Keeps-adapters_rollback : Keeps (InWorld P) (adapters_rollback env)
  Keeps-adapters_rollback =
      Keeps-on_world P (each_transactional (λ a. a.rollback_txn) (unique env.adapters)) (
        Keeps-each P (λ a. a.rollback_txn) (unique env.adapters)
          (All-unique (λ a. Keeps P a.rollback_txn) [] env.adapters (rollbacks env.adapters undo)))
    where
      rollbacks :
          (adapters : Dict (Adapter W))
          → All (λ (e : String × Adapter W). UndoKeeps P e.1) adapters
          → All (λ (e : String × Adapter W). Keeps P e.1.rollback_txn) adapters
      rollbacks [] u = tt
      rollbacks (e ∷ adapters) (u, us) = (record { at = u.rollback }, rollbacks adapters us)

  Keeps-save : (e : Effect) → Keeps (InWorld P) (modify (save_effect {W = W} e))
  unfolding save_effect
  Keeps-save e = Keeps-modify P (save_effect e) (λ s. refl)

  Keeps-finish : Keeps (InWorld P) (finish env)
  Keeps-finish = record { at = λ s p. p }

  Keeps-restore_held :
      (o : Option Snapshot) (a : Adapter W)
      → UndoKeeps P a
      → Keeps (InWorld P) (restore_held env o a)
  Keeps-restore_held none a u = record { at = λ s p. p }
  Keeps-restore_held (some h) a u = Keeps-on_world P (a.restore h) (record { at = u.restore h })

  Keeps-unwind_reversible : (e : Effect) → Keeps (InWorld P) (unwind_reversible env e)
  unfolding unwind_reversible
  Keeps-unwind_reversible e = Keeps-adapter e.resource _ λ a u.
      Keeps-then (restore_held env e.snapshot a) _ (Keeps-restore_held e.snapshot a u) (
        Keeps-then (modify (save_effect (compensated env e))) (pure false)
          (Keeps-save (compensated env e)) (record { at = λ s p. p }))

  Keeps-contained :
      {A : Type 0} (reversible active : Bool) (x : A) (m n : Exec (State W) A)
      → (reversible || not active) ≡ true
      → Keeps (InWorld P) m
      → Keeps (InWorld P) (λ s. if not active then (ok x, s) else if reversible then m s else n s)
  Keeps-contained reversible false x m n c k = record { at = λ s p. p }
  Keeps-contained true true x m n c k = k
  Keeps-contained false true x m n c k = cc

  Keeps-unwind_effect :
      (e : Effect) → is_contained e ≡ true → Keeps (InWorld P) (unwind_effect env e)
  unfolding unwind_effect
  Keeps-unwind_effect e contained =
      Keeps-contained e.reversible (is_applied e.status) false (unwind_reversible env e)
        (unwind_irreversible env e) contained (Keeps-unwind_reversible e)

  Keeps-unwind_effects :
      (es : List Effect) → all is_contained es ≡ true → Keeps (InWorld P) (unwind_effects env es)
  unfolding unwind_effects
  Keeps-unwind_effects [] c = record { at = λ s p. p }
  Keeps-unwind_effects (e ∷ es) c =
      let (first, rest) = &&-true (is_contained e) (all is_contained es) c in
      Keeps-bind (unwind_effect env e) _ (Keeps-unwind_effect e first) λ here.
        Keeps-bind (unwind_effects env es) _ (Keeps-unwind_effects es rest)
          λ _. record { at = λ s p. p }

  Keeps-land : (is_stuck : Bool) → Keeps (InWorld P) (land env is_stuck)
  Keeps-land is_stuck =
      let last : TxnState = if is_stuck then TxnState.stuck else TxnState.rolled_back in
      Keeps-then (adapters_rollback env) _ Keeps-adapters_rollback
        (Keeps-then (move_to last) (finish env) (Keeps-move_to P last) Keeps-finish)

  Keeps-unwind_journal :
      (es : List Effect)
      → all is_contained (reverse es) ≡ true
      → Keeps (InWorld P) (unwind_journal env es)
  Keeps-unwind_journal es c =
      Keeps-bind (unwind_effects env (reverse es)) (land env) (Keeps-unwind_effects (reverse es) c)
        Keeps-land

  Keeps-undo_effect : (e : Effect) → Keeps (InWorld P) (undo_effect env e)
  unfolding undo_effect save_effect
  Keeps-undo_effect e = elim (Option-cases e.snapshot) [
    | inl absent ↦ record { at = λ s p. rw absent p }
    | inr (h, found) ↦
        subst
          (λ (o : Option Snapshot). Keeps (InWorld P) (elim o [
            | none ↦ skip
            | some handle ↦ lift (resolve_adapter env e.resource) >>= λ a.
                on_world (a.restore handle) >> settle_restored env e
          ]))
          (sym found)
          (Keeps-adapter e.resource _ λ a u.
            Keeps-then (on_world (a.restore h)) (settle_restored env e)
              (Keeps-on_world P (a.restore h) (record { at = u.restore h })) Keeps-settle)
  ]
    where
      Keeps-settle : Keeps (InWorld P) (settle_restored env e)
      Keeps-settle = record {
        at = λ s p. elim (Bool-cases (is_applied e.status)) [ inl a ↦ rw a p | inr a ↦ rw a p ];
      }

  Keeps-undo_effects : (es : List Effect) → Keeps (InWorld P) (undo_effects env es)
  unfolding undo_effects
  Keeps-undo_effects [] = record { at = λ s p. p }
  Keeps-undo_effects (e ∷ es) =
      Keeps-then (undo_effect env e) (undo_effects env es) (Keeps-undo_effect e)
        (Keeps-undo_effects es)

  Keeps-guard_thread : Keeps (InWorld P) (guard_thread env)
  unfolding guard_thread
  Keeps-guard_thread =
      Keeps-if (env.thread ==ℕ env.owner_thread) _ _ (record { at = λ s p. p })
        (record { at = λ s p. p })

  Keeps-guard_open : Keeps (InWorld P) guard_open
  unfolding guard_open
  Keeps-guard_open = record { at = λ s p. ground arith }

  Keeps-rollback : Keeps (InWorld P) (rollback env)
  unfolding rollback
  Keeps-rollback = Keeps-then (guard_thread env) _ Keeps-guard_thread (
      Keeps-then guard_open _ Keeps-guard_open (
        Keeps-bind (gets (λ (s : State W). s.txn.effects)) _ (Keeps-gets (λ s. s.txn.effects)) λ es.
          Keeps-then (undo_effects env (reverse es)) _ (Keeps-undo_effects (reverse es))
            (Keeps-land false)))

  -- Whatever the journal holds and whatever the tools do, a property of the world that restoring
  -- and rolling adapters back keep holds after a rollback, whether or not it returns.
  pub rollback_fires_nothing : (s : State W) → P s.world → P (rollback env s).1.world
  rollback_fires_nothing s p = Keeps-rollback.at s p

  pub Keeps-partial_unwind :
      (s : State W)
      → all is_contained s.txn.effects ≡ true
      → P s.world
      → P (partial_unwind env s).1.world
  unfolding partial_unwind move_to transition
  Keeps-partial_unwind s c p = elim (Bool-cases (allowed s.txn.state TxnState.partial)) [
    | inr stays ↦ rw stays p
    | inl moves ↦
        rw moves
          ((Keeps-unwind_journal s.txn.effects (all-reverse is_contained s.txn.effects ∙ c)).at _ p)
  ]
