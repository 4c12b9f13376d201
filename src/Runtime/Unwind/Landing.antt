-- ===== src/Runtime/Unwind/Landing.antt =====
-- Where `_partial_unwind` lands, and what the journal then says.
use pherix.Base.{
  ◌==ℤ◌, ◌≡◌, refl, ◌∙◌, ◌⊎◌, inl, inr, Bool, true, false, not, ◌&&◌, ◌||◌, List, [], ◌∷◌, ◌++◌,
  reverse, append_assoc, arith, all, any, any-append, any-reverse, All, if◌then◌else◌, Bool-cases,
}
use pherix.Effects.{Effect, is_applied}
use pherix.Errors.{ok, ◌>>◌, >>-ok, >>=-ok}
use pherix.Transaction.{TxnState, transition}
use pherix.Runtime.State.{Env, State, save_effect, write_back, move_to}
use pherix.Runtime.Unwind.{
  compensated, unwind_effect, unwind_effects, partial_unwind, unwind_journal, land, finish,
  adapters_rollback,
}

-- No two effects of the journal have the same index.
abbrev pub HasDistinctIndices : List Effect → Type 0
HasDistinctIndices [] = Unit
HasDistinctIndices (x ∷ xs) = All (λ y. (y.index ==ℤ x.index) ≡ false) xs × HasDistinctIndices xs

-- `x` was not applied, or the fold is still to meet it.
abbrev covered : List Effect → Effect → Bool
covered es x = not (is_applied x.status) || any (λ e. is_applied e.status && x.index ==ℤ e.index) es

-- Writing back a compensated effect covers the rest of the journal by the rest of the fold.
absent-covered :
    (e : Effect) (es xs : List Effect)
    → All (λ y. (y.index ==ℤ e.index) ≡ false) xs
    → all (covered (e ∷ es)) xs ≡ true
    → all (covered es) xs ≡ true
absent-covered e es [] h c = refl
absent-covered e es (x ∷ xs) h c = ground (arith, absent-covered e es xs h.1)

module _ {W : Type 0} (env : Env W) where
  write_back-covered :
      (e : Effect) (es xs : List Effect)
      → HasDistinctIndices xs
      → all (covered (e ∷ es)) xs ≡ true
      → all (covered es) (write_back (compensated env e) xs) ≡ true
  write_back-covered e es [] d c = refl
  write_back-covered e es (x ∷ xs) d c = elim (Bool-cases (x.index ==ℤ e.index)) [
    | inl here ↦
        let same : x.index ≡ e.index = ground arith in
        ground (arith, absent-covered e es xs (rw same at d.0))
    | inr other ↦ ground (arith, write_back-covered e es xs d.1)
  ]

  write_back-absent :
      (e x : Effect) (xs : List Effect)
      → All (λ y. (y.index ==ℤ x.index) ≡ false) xs
      → All (λ y. (y.index ==ℤ x.index) ≡ false) (write_back (compensated env e) xs)
  write_back-absent e x [] h = tt
  write_back-absent e x (y ∷ xs) h = elim (Bool-cases (y.index ==ℤ e.index)) [
    | inl here ↦ rw here (ground arith)
    | inr other ↦ rw other (h.0, write_back-absent e x xs h.1)
  ]

  write_back-distinct :
      (e : Effect) (xs : List Effect)
      → HasDistinctIndices xs
      → HasDistinctIndices (write_back (compensated env e) xs)
  write_back-distinct e [] d = tt
  write_back-distinct e (x ∷ xs) d = elim (Bool-cases (x.index ==ℤ e.index)) [
    | inl here ↦ let same : x.index ≡ e.index = ground arith in rw here (rw same at d.0, d.1)
    | inr other ↦ rw other (write_back-absent e x xs d.0, write_back-distinct e xs d.1)
  ]

  -- An effect that is passed over, or undone, leaves the journal so.
  unwind_effect-journal :
      (e : Effect) (s s' : State W)
      → unwind_effect env e s ≡ (ok false, s')
      → s'.txn.effects ≡ (
          if is_applied e.status
          then write_back (compensated env e) s.txn.effects
          else s.txn.effects)
  unfolding unwind_effect save_effect
  unwind_effect-journal e s s' h = ground arith

  -- What the fold keeps while nothing is stuck.
  abbrev Tracks : List Effect → State W → Type 0
  Tracks es s = HasDistinctIndices s.txn.effects × (all (covered es) s.txn.effects ≡ true)

  skip-covered :
      (e : Effect) (es xs : List Effect)
      → is_applied e.status ≡ false
      → all (covered (e ∷ es)) xs ≡ true
      → all (covered es) xs ≡ true
  skip-covered e es [] out c = refl
  skip-covered e es (x ∷ xs) out c = ground (arith, skip-covered e es xs out)

  unwind_effect-Tracks :
      (e : Effect) (es : List Effect) (s s' : State W)
      → unwind_effect env e s ≡ (ok false, s')
      → Tracks (e ∷ es) s
      → Tracks es s'
  unwind_effect-Tracks e es s s' h (distinct, track) =
      let after = unwind_effect-journal e s s' h in
      elim (Bool-cases (is_applied e.status)) [
        | inr out ↦ rw (after, out) (distinct, skip-covered e es s.txn.effects out track)
        | inl active ↦
            rw (after, active)
              (
                write_back-distinct e s.txn.effects distinct,
                write_back-covered e es s.txn.effects distinct track,
              )
      ]

  unwind_effects-cons :
      (e : Effect) (es : List Effect) (s s' : State W)
      → unwind_effects env (e ∷ es) s ≡ (ok false, s')
      → (t : State W) × (unwind_effect env e s ≡ (ok false, t))
        × (unwind_effects env es t ≡ (ok false, s'))
  unfolding unwind_effects
  unwind_effects-cons e es s s' h = ((unwind_effect env e s).1, ground arith, ground arith)

  unwind_effects-Tracks :
      (es : List Effect) (s s' : State W)
      → unwind_effects env es s ≡ (ok false, s')
      → Tracks es s
      → Tracks [] s'
  unwind_effects-Tracks [] s s' h track = unfold unwind_effects in ground arith
  unwind_effects-Tracks (e ∷ es) s s' h track =
      let (t, first, rest) = unwind_effects-cons e es s s' h in
      unwind_effects-Tracks es t s' rest (unwind_effect-Tracks e es s t first track)

covered_self : (ys xs : List Effect) → all (covered (ys ++ xs)) xs ≡ true
covered_self ys [] = refl
covered_self ys (x ∷ xs) =
    let active = λ (e : Effect). is_applied e.status && x.index ==ℤ e.index in
    let rest : all (covered (ys ++ x ∷ xs)) xs ≡ true =
      rw (append_assoc ys (x ∷ []) xs) at (covered_self (ys ++ x ∷ []) xs) in
    rw (rest, any-append active ys (x ∷ xs)) (ground arith)

covered-reverse :
    (es xs : List Effect) → all (covered es) xs ≡ true → all (covered (reverse es)) xs ≡ true
covered-reverse es [] c = refl
covered-reverse es (x ∷ xs) c =
    let active = λ (e : Effect). is_applied e.status && x.index ==ℤ e.index in
    ground (arith, any-reverse active es, covered-reverse es xs)

none_applied :
    (xs : List Effect)
    → all (covered []) xs ≡ true
    → all (λ (e : Effect). not (is_applied e.status)) xs ≡ true
none_applied [] c = refl
none_applied (x ∷ xs) c = ground (arith, none_applied xs)

module _ {W : Type 0} (env : Env W) where
  move_to-ok :
      (to : TxnState) (s s' : State W)
      → move_to to s ≡ (ok tt, s')
      → (s'.txn.effects ≡ s.txn.effects) × (s'.txn.state ≡ to)
  unfolding move_to transition
  move_to-ok to s s' h = ground arith

  land-ok :
      (is_stuck : Bool) (s s' : State W)
      → land env is_stuck s ≡ (ok tt, s')
      → (s'.txn.effects ≡ s.txn.effects)
        × (s'.txn.state ≡ (if is_stuck then TxnState.stuck else TxnState.rolled_back))
        × (s'.finished ≡ true)
  land-ok is_stuck s s' h =
      let to = if is_stuck then TxnState.stuck else TxnState.rolled_back in
      let (_, t, rolled, h1) = >>-ok (adapters_rollback env) (move_to to >> finish env) s s' tt h in
      let (_, u, moved, h2) = >>-ok (move_to to) (finish env) t s' tt h1 in
      let facts = move_to-ok to t u moved in (ground arith, ground arith, ground arith)

  unwind_journal-lands :
      (s s' : State W)
      → HasDistinctIndices s.txn.effects
      → unwind_journal env s.txn.effects s ≡ (ok tt, s')
      → (s'.finished ≡ true)
        × ((s'.txn.state ≡ TxnState.stuck)
            ⊎ ((s'.txn.state ≡ TxnState.rolled_back)
                × (all (λ (e : Effect). not (is_applied e.status)) s'.txn.effects ≡ true)))
  unwind_journal-lands s s' distinct h =
      let es = s.txn.effects in
      let (is_stuck, u, unwound, h1) =
        >>=-ok (unwind_effects env (reverse es)) (land env) s s' tt h in
      let (same, landed, done) = land-ok is_stuck u s' h1 in
      (
        done,
        elim (Bool-cases is_stuck) [
          | inl stays ↦ inl (landed ∙ rw stays)
          | inr clean ↦
              let ended =
                unwind_effects-Tracks env (reverse es) s u (rw clean at unwound)
                  (distinct, covered-reverse es es (covered_self [] es)) in
              inr (landed ∙ rw clean, rw same (none_applied u.txn.effects ended.1))
        ],
      )

  pub partial_unwind-lands :
      (s s' : State W)
      → HasDistinctIndices s.txn.effects
      → partial_unwind env s ≡ (ok tt, s')
      → (s'.finished ≡ true)
        × ((s'.txn.state ≡ TxnState.stuck)
            ⊎ ((s'.txn.state ≡ TxnState.rolled_back)
                × (all (λ (e : Effect). not (is_applied e.status)) s'.txn.effects ≡ true)))
  unfolding partial_unwind
  partial_unwind-lands s s' distinct h =
      let rest = λ (t : State W). unwind_journal env t.txn.effects t in
      let (_, t, moved, h1) = >>-ok (move_to TxnState.partial) rest s s' tt h in
      let facts = move_to-ok TxnState.partial s t moved in
      unwind_journal-lands t s' (rw facts.0 distinct) h1
