-- ===== src/Replay/Verdicts.antt =====
-- What the outcomes of a replay say of the source.
use pherix.Base.{
  ◌≡◌, refl, subst, sym, ap, ◌∙◌, Bool, true, false, Bool-cases, inl, inr, none, List, [], ◌∷◌,
  ◌++◌, select, append-nil, arith, if◌then◌else◌,
}
use pherix.Effects.{Effect, Outcome, is_applied}
use pherix.Errors.{Result, ok, err, Exec, lift, gets, modify, pure, continue, ◌>>=◌, ◌>>◌, and_then}
use pherix.Transaction.{add_effect}
use pherix.Adapter.{Adapter}
use pherix.Audit.{EffectRow, record_effect}
use pherix.Runtime.State.{Env, on_txn, on_audit, set_effect}
use pherix.Runtime.Record.{run_live, journalled}
use pherix.Runtime.Keeps.{Ends}
use pherix.Replay.Source.{Codec, compare_results}
use pherix.Replay.Walk.{
  verify, Verdict, match, skipped_idempotent, skipped_non_applied, EffectOutcome, Replaying,
  is_divergence, reused, reused_outcome, outcome_of, verdict_of, on_run, add_outcome,
  add_divergence, effect_for, check, lookup_tool, handle_irreversible, run_reversible, judge,
  replay_reversible, replay_irreversible,
}

abbrev pub skip_status : EffectRow → Verdict
skip_status src = if is_applied src.status then skipped_idempotent else skipped_non_applied

-- What an outcome that is no divergence says of its row.
abbrev pub Lane : Codec → EffectRow → EffectOutcome → Bool → Type 0
Lane codec src o true =
    (o.status ≡ match) × (compare_results codec src.tool src.result o.replayed_result ≡ ok true)
Lane codec src o false = o.status ≡ skip_status src

-- The outcome is that of the row.
abbrev pub Answers : Codec → EffectRow → EffectOutcome → Type 0
Answers codec src o =
    (o.tool ≡ src.tool)
    × (o.resource ≡ src.resource)
    × (o.recorded_result ≡ src.result)
    × Lane codec src o src.reversible

abbrev pub Each :
    (EffectRow → EffectOutcome → Type 0) → List EffectRow → List EffectOutcome → Type 0
Each R [] [] = Unit
Each R (src ∷ source) (o ∷ os) = R src o × Each R source os
Each R _ _ = ⊥

-- Until the divergences are known.
abbrev pub Reported : Codec → EffectRow → EffectOutcome → Type 0
Reported codec src o = is_divergence o.status ≡ false → Answers codec src o

abbrev pub divergent : List EffectOutcome → List EffectOutcome
divergent os = select (λ (o : EffectOutcome). is_divergence o.status) os

-- What is true of the value of an action that returns.
abbrev OnOk : {A : Type 0} → (A → Type 0) → Result A → Type 0
OnOk Q (ok a) = Q a
OnOk Q (err x) = Unit

record Gives {S A : Type 0} (Q : A → Type 0) (m : Exec S A) : Type 0 where
  at : (s : S) → OnOk Q (m s).0

module _ {S A B : Type 0} (Q : B → Type 0) where
  continue-OnOk :
      (r : Result A × S) (f : A → Exec S B)
      → ((a : A) → Gives Q (f a))
      → OnOk Q (continue r.0 f r.1).0
  continue-OnOk (ok a, t) f gives = (gives a).at t
  continue-OnOk (err x, t) f gives = tt

  Gives-bind : (m : Exec S A) (f : A → Exec S B) → ((a : A) → Gives Q (f a)) → Gives Q (m >>= f)
  Gives-bind m f gives = record { at = λ s. continue-OnOk (m s) f gives }

  Gives-gets :
      (g : S → A) (f : A → Exec S B) → ((s : S) → Gives Q (f (g s))) → Gives Q (gets g >>= f)
  Gives-gets g f gives = record { at = λ s. (gives s).at s }

if-true : {A : Type 0} (b : Bool) (x y : A) → b ≡ true → (if b then x else y) ≡ x
if-true b x y h = rw h refl

if-false : {A : Type 0} (b : Bool) (x y : A) → b ≡ false → (if b then x else y) ≡ y
if-false b x y h = rw h refl

module _ {W : Type 0} (o : EffectOutcome) (t : Replaying W) where
  add_divergence-outcomes : (add_divergence o t).outcomes ≡ t.outcomes
  add_divergence-outcomes = ground arith

  add_divergence-divergences :
      (add_divergence o t).divergences ≡ t.divergences ++ divergent (o ∷ [])
  add_divergence-divergences = elim (Bool-cases (is_divergence o.status)) [
    | inl diverges ↦ simp diverges
    | inr agrees ↦ simp (agrees, append-nil)
  ]

module _ {S A : Type 0} (Q : S → Type 0) where
  -- What holds of the state after a block that returns.
  pub onto :
      (r : Result A × S) (f : A → Exec S (Unit {0}))
      → ((a : A) (t : S) → r ≡ (ok a, t) → Ends Q (λ _. Unit) (f a t))
      → Ends Q (λ _. Unit) (continue r.0 f r.1)
  onto (ok a, t) f after = after a t refl
  onto (err x, t) f after = tt

gave :
    {S A : Type 0} (Q : A → Type 0) (m : Exec S A) (s t : S) (a : A)
    → Gives Q m
    → m s ≡ (ok a, t)
    → Q a
gave {S} {A} Q m s t a gives returned =
    subst (λ (r : Result A × S). OnOk Q r.0) returned (gives.at s)

module _ {W : Type 0} (env : Env W) (codec : Codec) where
  -- A turn of the walk that returned has added one outcome.
  pub record Turned (src : EffectRow) (s s' : Replaying W) : Type 0 where
    pub o : EffectOutcome
    pub outcomes_are : s'.outcomes ≡ s.outcomes ++ o ∷ []
    pub divergences_are : s'.divergences ≡ s.divergences ++ divergent (o ∷ [])
    pub reported : Reported codec src o

  abbrev Names : EffectRow → Effect × Outcome → Type 0
  Names src ran = (ran.0.tool ≡ src.tool) × (ran.0.resource ≡ src.resource)

  run_reversible-Names :
      (a : Adapter W) (src : EffectRow) → Gives (Names src) (run_reversible env a src)
  unfolding run_reversible
  run_reversible-Names a src = Gives-bind (Names src) (lift (check env.policy src.tool)) _ λ _.
      Gives-bind (Names src) (lift (lookup_tool env src.tool)) _ λ spec.
        Gives-gets (Names src) (effect_for env src true spec.compensator)
          (λ e. do journalled e; result ← run_live a spec e; pure (e, result))
          λ s.
            Gives-bind (Names src) (journalled (effect_for env src true spec.compensator s)) _ λ _.
              Gives-bind (Names src) (run_live a spec (effect_for env src true spec.compensator s))
                (λ result. pure (effect_for env src true spec.compensator s, result))
                λ result. record { at = λ t. (refl, refl) }

  reused-Answers :
      (src : EffectRow) (e : Effect)
      → src.reversible ≡ false
      → e.tool ≡ src.tool
      → e.resource ≡ src.resource
      → Answers codec src (reused_outcome src e)
        × (is_divergence (reused_outcome src e).status ≡ false)
  reused-Answers src e lane tool resource = from (is_applied src.status) refl
    where
      from :
          (b : Bool)
          → is_applied src.status ≡ b
          → Answers codec src (reused_outcome src e)
            × (is_divergence (reused_outcome src e).status ≡ false)
      from true fired =
          let skipped : skip_status src ≡ skipped_idempotent = rw fired refl in
          let whole = outcome_of e skipped_idempotent src.result src.result in
          subst (λ o. Answers codec src o × (is_divergence o.status ≡ false))
            (sym (if-true (is_applied src.status) _ _ fired))
            ((tool, resource, refl, subst (Lane codec src whole) (sym lane) (sym skipped)), refl)
      from false held =
          let skipped : skip_status src ≡ skipped_non_applied = rw held refl in
          let whole = outcome_of e skipped_non_applied src.result Outcome.missing in
          subst (λ o. Answers codec src o × (is_divergence o.status ≡ false))
            (sym (if-false (is_applied src.status) _ _ held))
            ((tool, resource, refl, subst (Lane codec src whole) (sym lane) (sym skipped)), refl)

  handle_irreversible-Answers :
      (src : EffectRow)
      → src.reversible ≡ false
      → Gives
          (λ o. Answers codec src o × (is_divergence o.status ≡ false))
          (handle_irreversible env src)
  unfolding handle_irreversible
  handle_irreversible-Answers src lane =
      let Q : EffectOutcome → Type 0 =
        λ o. Answers codec src o × (is_divergence o.status ≡ false) in
      Gives-gets Q (effect_for env src false none)
        (λ e. do
          on_txn (add_effect e)
          modify (set_effect (reused src e))
          modify (on_audit (record_effect (reused src e)))
          pure (reused_outcome src e))
        λ s.
          let e = effect_for env src false none s in
          Gives-bind Q (on_txn (add_effect e)) _ λ _.
            Gives-bind Q (modify (set_effect (reused src e))) _ λ _.
              Gives-bind Q (modify (on_audit (record_effect (reused src e))))
                (λ _. pure (reused_outcome src e))
                λ _. record { at = λ t. reused-Answers src e lane refl refl }

  pub irreversible-Turned :
      (src : EffectRow) (s : Replaying W)
      → src.reversible ≡ false
      → Ends (Turned src s) (λ _. Unit) (replay_irreversible env codec src s)
  irreversible-Turned src s lane =
      onto (Turned src s) (on_run (handle_irreversible env src) s) _ λ o t ran.
        let (answers, whole) =
          gave (λ o. Answers codec src o × (is_divergence o.status ≡ false))
            (handle_irreversible env src) s.run t.run o (handle_irreversible-Answers src lane)
            (ap (λ (r : Result EffectOutcome × Replaying W). (r.0, r.1.run)) ran) in
        let none_more : divergent (o ∷ []) ≡ [] = rw whole refl in
        record {
          o = o;
          outcomes_are =
              ap (λ os. os ++ o ∷ [])
                (sym (ap (λ (r : Result EffectOutcome × Replaying W). r.1.outcomes) ran));
          divergences_are =
              sym (ap (λ (r : Result EffectOutcome × Replaying W). r.1.divergences) ran)
              ∙ rw none_more (sym (append-nil s.divergences));
          reported = λ _. answers;
        }

  judge-Reported :
      (src : EffectRow) (ran : Effect × Outcome)
      → src.reversible ≡ true
      → Names src ran
      → OnOk (Reported codec src) (judge codec verify src ran)
  unfolding judge
  judge-Reported src (e, result) lane (tool, resource) =
      from (compare_results codec src.tool src.result result) refl
    where
      from :
          (r : Result Bool)
          → compare_results codec src.tool src.result result ≡ r
          → OnOk
              (Reported codec src)
              (and_then r λ matched. ok (outcome_of e (verdict_of matched) src.result result))
      from (ok true) compared = λ _. (
        tool,
        resource,
        refl,
        subst (Lane codec src (outcome_of e match src.result result)) (sym lane) (refl, compared),
      )
      from (ok false) compared = λ whole. cc
      from (err x) compared = tt

  judged-Turned :
      (src : EffectRow) (s t : Replaying W) (ran : Effect × Outcome) (r : Result EffectOutcome)
      → t.outcomes ≡ s.outcomes
      → t.divergences ≡ s.divergences
      → OnOk (Reported codec src) r
      → Ends
          (Turned src s)
          (λ _. Unit)
          ((lift r >>= λ o. modify (λ s. add_outcome o (add_divergence o s))) t)
  judged-Turned src s t ran (err x) outcomes divergences reported = tt
  judged-Turned src s t ran (ok o) outcomes divergences reported = record {
    o = o;
    outcomes_are = ap (λ os. os ++ o ∷ []) (add_divergence-outcomes o t ∙ outcomes);
    divergences_are =
        add_divergence-divergences o t ∙ ap (λ os. os ++ divergent (o ∷ [])) divergences;
    reported = reported;
  }

  pub reversible-Turned :
      (a : Adapter W) (src : EffectRow) (s : Replaying W)
      → src.reversible ≡ true
      → Ends (Turned src s) (λ _. Unit) (replay_reversible env codec verify a src s)
  reversible-Turned a src s lane =
      onto (Turned src s) (on_run (run_reversible env a src) s) _ λ ran t returned.
        let names =
          gave (Names src) (run_reversible env a src) s.run t.run ran (run_reversible-Names a src)
            (ap (λ (r : Result (Effect × Outcome) × Replaying W). (r.0, r.1.run)) returned) in
        judged-Turned src s t ran (judge codec verify src ran)
          (sym (ap (λ (r : Result (Effect × Outcome) × Replaying W). r.1.outcomes) returned))
          (sym (ap (λ (r : Result (Effect × Outcome) × Replaying W). r.1.divergences) returned))
          (judge-Reported src ran lane names)
