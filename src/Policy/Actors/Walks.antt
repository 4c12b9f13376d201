-- ===== src/Policy/Actors/Walks.antt =====
-- The actor cap in the two walks: at stage time each effect is held against the journal before it,
-- at commit time against the whole journal.
use pherix.Base.{
  ℕ, ◌+◌, ◌≤◌, ◌<◌, ℤ, pos, ◌≤ℤ◌, ltb_ℤ, ◌==ℤ◌, ◌==ℕ◌, String, ◌≡◌, refl, subst, Bool, true, false,
  not, ◌&&◌, Option, none, some, List, [], ◌∷◌, ◌++◌, append_assoc, arith, opt_eq, eq_iff, count,
  count-append, all, All, Bool-cases, inl, inr, &&-true,
}
use pherix.Effects.{Effect}
use pherix.Errors.{Result, ok, err}
use pherix.Policy.Context.{Context, Verdict, allow, deny}
use pherix.Policy.Actors.{ActorCap, limit_of, in_scope, by_actor, prior, per_actor_count_cap}

abbrev pub allows : Result Verdict → Bool
allows (ok allow) = true
allows (ok (deny _)) = false
allows (err _) = false

abbrev pub at_journal : Context → List Effect → Context
at_journal ctx es = record ctx { journal = es }

module _ (c : ActorCap) (ctx : Context) where
  -- The verdicts of the stage walk: effect by effect, the journal growing.
  unfoldable pub stage_allows : List Effect → List Effect → Bool
  stage_allows journal [] = true
  stage_allows journal (e ∷ es) =
      allows (per_actor_count_cap c e (at_journal ctx journal))
      && stage_allows (journal ++ e ∷ []) es

  -- The verdicts of the commit walk, over the effects `es` of one journal.
  unfoldable pub commit_allows : List Effect → List Effect → Bool
  commit_allows journal es = all (λ e. allows (per_actor_count_cap c e (at_journal ctx journal))) es

-- No effect of the list has the index of `e`.
abbrev pub Absent : Effect → List Effect → Type 0
Absent e = All (λ x. (x.index ==ℤ e.index) ≡ false)

-- The indices of `es` are new one after another, and to `journal`.
abbrev pub HasFreshIndices : List Effect → List Effect → Type 0
HasFreshIndices journal [] = Unit
HasFreshIndices journal (e ∷ es) = Absent e journal × HasFreshIndices (journal ++ e ∷ []) es

-- The allowance of an actor covers `n` effects.
abbrev Fits : ActorCap → Option String → ℕ → Type 0
Fits c actor n = elim (limit_of c actor) [ none ↦ Unit | some l ↦ pos n ≤ℤ l ]

opt_eq-true : (a b : Option String) → opt_eq a b ≡ true → a ≡ b
opt_eq-true none none h = refl
opt_eq-true none (some b) h = cc
opt_eq-true (some a) none h = cc
opt_eq-true (some a) (some b) h = ground (arith, eq_iff a b)

opt_eq_refl : (a : Option String) → opt_eq a a ≡ true
opt_eq_refl none = refl
opt_eq_refl (some a) = (eq_iff a a).1 refl

module _ (c : ActorCap) where
  prior-Absent :
      (e : Effect) (es : List Effect) → Absent e es → prior c e es ≡ count (by_actor c e.actor) es
  prior-Absent e [] h = refl
  prior-Absent e (x ∷ es) h = ground (arith, prior-Absent e es h.1)

  prior-le-count : (e : Effect) (es : List Effect) → prior c e es ≤ count (by_actor c e.actor) es
  prior-le-count e [] = omega arith
  prior-le-count e (x ∷ es) = ground (arith, prior-le-count e es)

  -- An effect in scope that the rule admits leaves room for itself.
  admitted-Fits :
      (e : Effect) (ctx : Context)
      → in_scope c e ≡ true
      → allows (per_actor_count_cap c e ctx) ≡ true
      → Fits c e.actor (prior c e ctx.journal + 1)
  unfolding per_actor_count_cap
  admitted-Fits e ctx s h = ground arith

  Fits-admitted :
      (e : Effect) (ctx : Context) (n : ℕ)
      → prior c e ctx.journal + 1 ≤ n
      → Fits c e.actor n
      → allows (per_actor_count_cap c e ctx) ≡ true
  unfolding per_actor_count_cap
  Fits-admitted e ctx n le h = ground arith

module _ (c : ActorCap) (ctx : Context) where
  -- an admitted effect with none of its actor's behind it
  last_Fits :
      (e : Effect) (journal es : List Effect)
      → Absent e journal
      → by_actor c e.actor e ≡ true
      → count (by_actor c e.actor) es ≡ 0
      → allows (per_actor_count_cap c e (at_journal ctx journal)) ≡ true
      → Fits c e.actor (count (by_actor c e.actor) (journal ++ e ∷ es))
  last_Fits e journal es fresh mine none_left h =
      rw (count-append (by_actor c e.actor) journal (e ∷ es), mine, none_left)
        (rw (← prior-Absent c e journal fresh) (
          admitted-Fits c e (at_journal ctx journal)
            (&&-true (opt_eq e.actor e.actor) (in_scope c e) mine).1 h))

  last_Fits_of :
      (a : Option String) (e : Effect) (journal es : List Effect)
      → Absent e journal
      → by_actor c a e ≡ true
      → count (by_actor c a) es ≡ 0
      → allows (per_actor_count_cap c e (at_journal ctx journal)) ≡ true
      → Fits c a (count (by_actor c a) (journal ++ e ∷ es))
  last_Fits_of a e journal es fresh mine none_left h =
      let same : e.actor ≡ a =
        opt_eq-true e.actor a (&&-true (opt_eq e.actor a) (in_scope c e) mine).0 in
      subst
        (λ b.
          by_actor c b e ≡ true
          → count (by_actor c b) es ≡ 0
          → Fits c b (count (by_actor c b) (journal ++ e ∷ es)))
        same (λ m n. last_Fits e journal es fresh m n h) mine none_left

  -- An actor with an effect still to come that the stage walk admits keeps within its allowance.
  staged_Fits :
      (a : Option String) (journal es : List Effect)
      → HasFreshIndices journal es
      → stage_allows c ctx journal es ≡ true
      → 0 < count (by_actor c a) es
      → Fits c a (count (by_actor c a) (journal ++ es))
  unfolding stage_allows
  staged_Fits a journal [] fresh h some_left = absurd (omega arith)
  staged_Fits a journal (e ∷ es) fresh h some_left =
      let (now, later) = &&-true _ _ h in
      elim (Bool-cases (count (by_actor c a) es ==ℕ 0)) [
        | inl last ↦ last_Fits_of a e journal es fresh.0 (ground arith) (ground arith) now
        | inr more ↦
            rw (append_assoc journal (e ∷ []) es) at
              (staged_Fits a (journal ++ e ∷ []) es fresh.1 later (ground arith))
      ]

module _ (c : ActorCap) (e : Effect) (scope : in_scope c e ≡ true) where
  -- The effect under evaluation is in the journal and is not counted against itself.
  prior-present :
      (journal es : List Effect)
      → prior c e (journal ++ e ∷ es) + 1 ≤ count (by_actor c e.actor) (journal ++ e ∷ es)
  prior-present [] es = rw (scope, opt_eq_refl e.actor) (ground (arith, prior-le-count c e es))
  prior-present (x ∷ journal) es = ground (arith, prior-present journal es)

  prior-present_distinct :
      (journal es : List Effect)
      → Absent e journal
      → Absent e es
      → prior c e (journal ++ e ∷ es) + 1 ≡ count (by_actor c e.actor) (journal ++ e ∷ es)
  prior-present_distinct [] es none_before none_after =
      rw (scope, opt_eq_refl e.actor) (ground (arith, prior-Absent c e es none_after))
  prior-present_distinct (x ∷ journal) es none_before none_after =
      ground (arith, prior-present_distinct journal es none_before.1 none_after)

module _ (c : ActorCap) (ctx : Context) where
  out_of_scope :
      (e : Effect) (k : Context) → in_scope c e ≡ false → allows (per_actor_count_cap c e k) ≡ true
  unfolding per_actor_count_cap
  out_of_scope e k h = rw h

  present_allowed :
      (e : Effect) (journal es : List Effect)
      → ((a : Option String)
          → 0 < count (by_actor c a) (journal ++ e ∷ es)
          → Fits c a (count (by_actor c a) (journal ++ e ∷ es)))
      → allows (per_actor_count_cap c e (at_journal ctx (journal ++ e ∷ es))) ≡ true
  present_allowed e journal es fits = elim (Bool-cases (in_scope c e)) [
    | inr outside ↦ out_of_scope e (at_journal ctx (journal ++ e ∷ es)) outside
    | inl inside ↦
        let le = prior-present c e inside journal es in
        Fits-admitted c e (at_journal ctx (journal ++ e ∷ es))
          (count (by_actor c e.actor) (journal ++ e ∷ es)) le (fits e.actor (omega (arith, le)))
  ]

  commit_allows_rest :
      (whole journal es : List Effect)
      → whole ≡ journal ++ es
      → ((a : Option String)
          → 0 < count (by_actor c a) whole
          → Fits c a (count (by_actor c a) whole))
      → commit_allows c ctx whole es ≡ true
  unfolding commit_allows
  commit_allows_rest whole journal [] eq fits = refl
  commit_allows_rest whole journal (e ∷ es) eq fits =
      let now : allows (per_actor_count_cap c e (at_journal ctx whole)) ≡ true =
        rw eq (present_allowed e journal es (rw eq at fits)) in
      rw (
        now,
        commit_allows_rest whole (journal ++ e ∷ []) es (rw (append_assoc journal (e ∷ []) es) eq)
            fits,
      )

  -- If the rule admits every effect of a journal when it is staged, then it admits every one of
  -- them in the walk at commit, where each is held against the whole journal. The indices of the
  -- effects are distinct.
  pub stage_then_commit :
      (es : List Effect)
      → HasFreshIndices [] es
      → stage_allows c ctx [] es ≡ true
      → commit_allows c ctx es es ≡ true
  stage_then_commit es fresh h =
      commit_allows_rest es [] es refl (λ a some_left. staged_Fits c ctx a [] es fresh h some_left)

-- In the walk at commit the verdict on an effect in scope depends on how many effects its actor has
-- in the whole journal, those behind it included: it is denied exactly if that number passes the
-- allowance, wherever in the journal the effect stands. The indices are distinct.
pub commit_verdict_by_total :
    (c : ActorCap) (ctx : Context) (e : Effect) (limit : ℤ) (journal es : List Effect)
    → in_scope c e ≡ true
    → limit_of c e.actor ≡ some limit
    → Absent e journal
    → Absent e es
    → allows (per_actor_count_cap c e (at_journal ctx (journal ++ e ∷ es)))
      ≡ not (ltb_ℤ limit (pos (count (by_actor c e.actor) (journal ++ e ∷ es))))
unfolding per_actor_count_cap
commit_verdict_by_total c ctx e limit journal es scope found before after =
    rw (scope, found, ← prior-present_distinct c e scope journal es before after) (ground arith)
