-- ===== src/Runtime/Unwind/Returns.antt =====
-- When `_partial_unwind` returns: what it asks of the adapters and of the journal.
use pherix.Base.{
  String, ◌≡◌, refl, sym, ◌∙◌, ◌⊎◌, inl, inr, Bool, true, false, not, ◌&&◌, Option, none, some,
  List, [], ◌∷◌, reverse, all, all-reverse, &&-true, All, get, if◌then◌else◌, Bool-cases,
  Option-cases,
}
use pherix.Values.{Snapshot, Value}
use pherix.Effects.{Effect, is_applied}
use pherix.Errors.{Result, ok, err, is_ok, Exec, continue, ◌>>=◌, ◌>>◌, lift}
use pherix.Transaction.{TxnState, allowed, transition}
use pherix.Adapter.{Adapter, ToolSpec, unique}
use pherix.Runtime.State.{
  Env, State, resolve_adapter, save_effect, on_world, move_to, each_transactional, if_transactional,
}
use pherix.Runtime.Keeps.{Ends, Leads, Leads-bind, All-get, All-unique}
use pherix.Runtime.Unwind.{
  compensator_of, carrier, fired, fire_compensator, compensate, restore_held, unwind_reversible,
  unwind_irreversible, unwind_effect, unwind_effects, partial_unwind, land, adapters_rollback,
}
use pherix.Runtime.Unwind.Landing.{HasDistinctIndices, partial_unwind-lands}

-- The undoing actions of the adapter do not raise.
pub record Dependable {W : Type 0} (a : Adapter W) : Type 0 where
  pub restores : (h : Snapshot) (w : W) → is_ok (a.restore h w).0 ≡ true
  pub rolls_back : (w : W) → is_ok (a.rollback_txn w).0 ≡ true

module _ {W : Type 0} (env : Env W) where
  -- An adapter is registered for the resource.
  abbrev pub serves : String → Bool
  serves r = elim (get r env.adapters) [ none ↦ false | some a ↦ true ]

  abbrev pub is_held : Option Snapshot → Bool
  is_held none = false
  is_held (some h) = true

  abbrev pub can_compensate : Option (String × ToolSpec W) → Bool
  can_compensate none = true
  can_compensate (some (name, spec)) = serves spec.resource

  -- The adapter that undoing the effect takes is registered, and a reversible effect has the
  -- snapshot that it is restored from.
  abbrev pub can_unwind : Effect → Bool
  can_unwind e =
      if not (is_applied e.status)
      then true
      else if e.reversible
      then serves e.resource && is_held e.snapshot
      else can_compensate (compensator_of env e)

abbrev Never : {W : Type 0} → State W → Type 0
Never s = true ≡ false

abbrev Partial : {W : Type 0} → State W → Type 0
Partial s = s.txn.state ≡ TxnState.partial

module _ {W : Type 0} where
  Ends-on_world :
      {A : Type 0} (m : Exec W A) (s : State W)
      → is_ok (m s.world).0 ≡ true
      → Partial s
      → Ends Partial Never (on_world m s)
  Ends-on_world {A} m s good p = ended (m s.world) good
    where
      ended :
          (r : Result A × W) → is_ok r.0 ≡ true → Ends Partial Never (r.0, record s { world = r.1 })
      ended (ok a, w) g = p
      ended (err x, w) g = sym g

then_ok :
    {S A B : Type 0} (m : Exec S A) (k : Exec S B) (s : S)
    → is_ok (m s).0 ≡ true
    → ((t : S) → is_ok (k t).0 ≡ true)
    → is_ok ((m >> k) s).0 ≡ true
then_ok {S} {A} m k s good rest = after (m s) good
  where
    after : (r : Result A × S) → is_ok r.0 ≡ true → is_ok (continue r.0 (λ _. k) r.1).0 ≡ true
    after (ok a, t) g = rest t
    after (err x, t) g = cc

module _ {W : Type 0} (env : Env W)
    (dependable : All (λ (e : String × Adapter W). Dependable e.1) env.adapters) where
  Leads-adapter :
      {A : Type 0} (r : String) (f : Adapter W → Exec (State W) A)
      → serves env r ≡ true
      → ((a : Adapter W) → Dependable a → Leads Partial Partial Never (f a))
      → Leads Partial Partial Never (lift (resolve_adapter env r) >>= f)
  unfolding resolve_adapter
  Leads-adapter r f known k = elim (Option-cases (get r env.adapters)) [
    | inl absent ↦ let never : false ≡ true = rw (absent, serves) at known in cc
    | inr (a, found) ↦ record {
      run = λ s p.
          rw (found, resolve_adapter)
            ((k a (All-get Dependable env.adapters r a dependable found)).run s p);
    }
  ]

  Leads-restore_held :
      (o : Option Snapshot) (a : Adapter W)
      → is_held env o ≡ true
      → Dependable a
      → Leads Partial Partial Never (restore_held env o a)
  Leads-restore_held none a held d = cc
  Leads-restore_held (some h) a held d = record {
    run = λ s p. Ends-on_world (a.restore h) s (d.restores h s.world) p;
  }

  Leads-unwind_reversible :
      (e : Effect)
      → serves env e.resource ≡ true
      → is_held env e.snapshot ≡ true
      → Leads Partial Partial Never (unwind_reversible env e)
  unfolding unwind_reversible save_effect
  Leads-unwind_reversible e known held = Leads-adapter e.resource _ known λ a d.
      Leads-bind Partial (restore_held env e.snapshot a) _ (Leads-restore_held e.snapshot a held d)
        λ _. record { run = λ s p. p }

  Leads-fire_compensator :
      (e : Effect) (name : String) (spec : ToolSpec W) (a : Adapter W)
      → Leads Partial Partial Never (fire_compensator env e name spec a)
  unfolding save_effect
  Leads-fire_compensator e name spec a = record {
    run = λ s p.
        let r = a.apply (carrier env s.txn.txn_id e name spec) spec.fn s.world in
        after r.result (record s { world = r.world }) p;
  }
    where
      after : (r : Result Value) (s : State W) → Partial s → Ends Partial Never (fired env e r s)
      after (ok v) s p = p
      after (err x) s p = p

  Leads-compensate :
      (e : Effect) (o : Option (String × ToolSpec W))
      → can_compensate env o ≡ true
      → Leads Partial Partial Never (compensate env e o)
  Leads-compensate e none known = record { run = λ s p. p }
  Leads-compensate e (some (name, spec)) known =
      Leads-adapter spec.resource _ known λ a _. Leads-fire_compensator e name spec a

  Leads-choice :
      (active reversible back forth : Bool) (m n : Exec (State W) Bool)
      → (if not active then true else if reversible then back else forth) ≡ true
      → (back ≡ true → Leads Partial Partial Never m)
      → (forth ≡ true → Leads Partial Partial Never n)
      → Leads Partial Partial Never
          (λ s. if not active then (ok false, s) else if reversible then m s else n s)
  Leads-choice false reversible back forth m n can km kn = record { run = λ s p. p }
  Leads-choice true true back forth m n can km kn = km can
  Leads-choice true false back forth m n can km kn = kn can

  Leads-unwind_effect :
      (e : Effect) → can_unwind env e ≡ true → Leads Partial Partial Never (unwind_effect env e)
  unfolding unwind_effect unwind_irreversible
  Leads-unwind_effect e can =
      Leads-choice (is_applied e.status) e.reversible
        (serves env e.resource && is_held env e.snapshot)
        (can_compensate env (compensator_of env e)) (unwind_reversible env e)
        (compensate env e (compensator_of env e)) can
        (λ both.
          let (known, held) = &&-true (serves env e.resource) (is_held env e.snapshot) both in
          Leads-unwind_reversible e known held)
        (Leads-compensate e (compensator_of env e))

  Leads-unwind_effects :
      (es : List Effect)
      → all (can_unwind env) es ≡ true
      → Leads Partial Partial Never (unwind_effects env es)
  unfolding unwind_effects
  Leads-unwind_effects [] c = record { run = λ s p. p }
  Leads-unwind_effects (e ∷ es) c =
      let (first, rest) = &&-true (can_unwind env e) (all (can_unwind env) es) c in
      Leads-bind Partial (unwind_effect env e) _ (Leads-unwind_effect e first) λ here.
        Leads-bind Partial (unwind_effects env es) _ (Leads-unwind_effects es rest)
          λ _. record { run = λ s p. p }

  rollbacks-ok :
      (adapters : List (Adapter W)) (w : W)
      → All Dependable adapters
      → is_ok (each_transactional (λ a. a.rollback_txn) adapters w).0 ≡ true
  unfolding each_transactional
  rollbacks-ok [] w d = refl
  rollbacks-ok (a ∷ rest) w (d, ds) =
      then_ok (if_transactional (λ a. a.rollback_txn) a) _ w
        (elim (Bool-cases a.transactional) [
          | inl y ↦ rw (y, if_transactional) (d.rolls_back w)
          | inr n ↦ rw (n, if_transactional) refl
        ])
        (λ w'. rollbacks-ok rest w' ds)

  unique-Dependable : All Dependable (unique env.adapters)
  unique-Dependable = All-unique Dependable [] env.adapters dependable

  Leads-move_to :
      (to : TxnState)
      → allowed TxnState.partial to ≡ true
      → Leads Partial (λ s. s.txn.state ≡ to) Never (move_to {W = W} to)
  unfolding move_to transition
  Leads-move_to to legal = record { run = λ s p. rw (p, legal) refl }

  Leads-land : (is_stuck : Bool) → Leads Partial (λ s. Unit) Never (land env is_stuck)
  unfolding allowed
  Leads-land is_stuck =
      let last = if is_stuck then TxnState.stuck else TxnState.rolled_back in
      let legal : allowed TxnState.partial last ≡ true = elim (Bool-cases is_stuck) [
        | inl y ↦ rw y refl
        | inr n ↦ rw n refl
      ] in
      Leads-bind _ (adapters_rollback env) _
        (record {
          run = λ s p.
              Ends-on_world (each_transactional (λ a. a.rollback_txn) (unique env.adapters)) s
                (rollbacks-ok (unique env.adapters) s.world unique-Dependable) p;
        })
        λ _.
          Leads-bind _ (move_to last) _ (Leads-move_to last legal) λ _. record { run = λ s p. tt }

  Ends-partial_unwind :
      (s : State W)
      → s.txn.state ≡ TxnState.staged
      → all (can_unwind env) s.txn.effects ≡ true
      → Ends (λ s. Unit) Never (partial_unwind env s)
  unfolding partial_unwind move_to transition allowed
  Ends-partial_unwind s staged can = rw staged (
      (Leads-bind _ (unwind_effects env (reverse s.txn.effects)) _
          (Leads-unwind_effects (reverse s.txn.effects)
            (all-reverse (can_unwind env) s.txn.effects ∙ can))
          Leads-land).run
        _ refl)

  returned :
      (r : Result (Unit {0}) × State W)
      → Ends (λ s. Unit) Never r
      → (s' : State W) × (r ≡ (ok tt, s'))
  returned (ok tt, s') e = (s', refl)
  returned (err x, s') e = cc

  -- `_partial_unwind` of a STAGED transaction returns, when undoing does not raise and the journal
  -- has what undoing takes; the transaction is then finished, and it is stuck or it is rolled back
  -- with no effect left APPLIED in the journal. The indices of the journal are distinct.
  pub partial_unwind_lands :
      (s : State W)
      → s.txn.state ≡ TxnState.staged
      → HasDistinctIndices s.txn.effects
      → all (can_unwind env) s.txn.effects ≡ true
      → (s' : State W) × (partial_unwind env s ≡ (ok tt, s'))
        × (s'.finished ≡ true)
        × ((s'.txn.state ≡ TxnState.stuck)
            ⊎ ((s'.txn.state ≡ TxnState.rolled_back)
                × (all (λ (e : Effect). not (is_applied e.status)) s'.txn.effects ≡ true)))
  partial_unwind_lands s staged distinct can =
      let (s', h) = returned (partial_unwind env s) (Ends-partial_unwind s staged can) in
      let (done, landed) = partial_unwind-lands env s s' distinct h in (s', h, done, landed)
