-- ===== src/Policy/Agreement.antt =====
-- Raise mode against capture mode: `evaluate` with `try_evaluate`, and `evaluate_journal` with
-- `collect_verdicts` (policy.py).
use pherix.Base.{◌≡◌, refl, false, Option, none, some, List, [], ◌∷◌, ◌++◌, arith, if◌then◌else◌}
use pherix.Effects.{Effect}
use pherix.Errors.{
  Result, ok, err, is_ok, Where, Reason, Violation, policy_violation, stage, commit, continue, Exec,
  pure, ◌>>=◌, ◌>>◌,
}
use pherix.Policy.Context.{Context, Rule, PolicyVerdict, reset_caps}
use pherix.Policy.Caps.{Cap}
use pherix.Policy.Engine.{
  Policy, gather, capture_lists, check_lists, check_rules, check_caps, accumulate, evaluate, walk,
  evaluate_journal, capture_rules, capture_caps, try_evaluate, capture_walk, collect_verdicts,
}

abbrev reason_of : Option Reason → Reason
reason_of none = Reason.other ""
reason_of (some r) = r

-- The violation that a captured denial stands for.
abbrev pub denial : PolicyVerdict → Violation
denial v = record {
  tool = v.tool;
  reason = reason_of v.reason;
  phase = v.phase;
  rule_name = v.rule_name;
  effect_index = elim v.phase [ stage ↦ none | commit ↦ some v.effect_index ];
}

-- The violation of the first denied verdict.
abbrev pub first_denial : List PolicyVerdict → Option Violation
first_denial [] = none
first_denial (v ∷ vs) = if v.allowed then first_denial vs else some (denial v)

-- What a run that raises must do, given what the run that captures did.
abbrev pub Agrees : Result (List PolicyVerdict) × Context → Result (Unit {0}) × Context → Type 0
Agrees (err x, c) (r, c') = is_ok r ≡ false
Agrees (ok vs, c) (r, c') = elim (first_denial vs) [
  | none ↦ (r ≡ ok tt) × (c' ≡ c)
  | some v ↦ r ≡ err (policy_violation v)
]

rules-Agrees :
    (rs : List Rule) (e : Effect) (ctx : Context)
    → Agrees (capture_rules rs e ctx) (check_rules rs e ctx)
unfolding check_rules capture_rules
rules-Agrees [] e ctx = (refl, refl)
rules-Agrees (r ∷ rs) e ctx = ground (arith, rules-Agrees rs e ctx)

-- A cap's step on an allowed effect, with what follows it.
caps_step_agree :
    (c : Cap) (cs : List Cap) (e : Effect) (ctx : Context)
    → ((ctx' : Context) → Agrees (capture_caps cs e ctx') (check_caps cs e ctx'))
    → Agrees (capture_caps (c ∷ cs) e ctx) (check_caps (c ∷ cs) e ctx)
unfolding check_caps capture_caps
caps_step_agree c cs e ctx ih = ground (arith, ih ctx, ih (accumulate c e ctx).1)

caps-Agrees :
    (cs : List Cap) (e : Effect) (ctx : Context)
    → Agrees (capture_caps cs e ctx) (check_caps cs e ctx)
unfolding check_caps capture_caps
caps-Agrees [] e ctx = (refl, refl)
caps-Agrees (c ∷ cs) e ctx = caps_step_agree c cs e ctx (caps-Agrees cs e)

first_denial-append :
    (vs ws : List PolicyVerdict)
    → first_denial (vs ++ ws) ≡ elim (first_denial vs) [ none ↦ first_denial ws | some v ↦ some v ]
first_denial-append [] ws = refl
first_denial-append (v ∷ vs) ws = ground (arith, first_denial-append vs ws)

-- The outcome of a first capture `m` that ran, with the outcome `k` of the second.
gather_ok :
    (vs : List PolicyVerdict) (c : Context) (n : Result (Unit {0}) × Context)
    (k : Result (List PolicyVerdict) × Context) (l : Exec Context (Unit {0}))
    → Agrees (ok vs, c) n
    → Agrees k (l c)
    → Agrees (continue k.0 (λ ws. pure (vs ++ ws)) k.1) (continue n.0 (λ _. l) n.1)
gather_ok vs c (ok _, c'') (ok ws, c') l h g = ground (arith, first_denial-append vs ws)
gather_ok vs c (err x, c'') (ok ws, c') l h g = ground (arith, first_denial-append vs ws)
gather_ok vs c (ok _, c'') (err x, c') l h g = ground arith
gather_ok vs c (err y, c'') (err x, c') l h g = ground arith

module _ (k : Exec Context (List PolicyVerdict)) (l : Exec Context (Unit {0})) where
  gather_outcomes :
      (m : Result (List PolicyVerdict) × Context) (n : Result (Unit {0}) × Context)
      → Agrees m n
      → ((c : Context) → Agrees (k c) (l c))
      → Agrees (continue m.0 (λ vs. k >>= λ ws. pure (vs ++ ws)) m.1) (continue n.0 (λ _. l) n.1)
  gather_outcomes (err x, c) n h g = ground arith
  gather_outcomes (ok vs, c) n h g = gather_ok vs c n (k c) l h (g c)

gather-Agrees :
    (m k : Exec Context (List PolicyVerdict)) (n l : Exec Context (Unit {0}))
    → ((c : Context) → Agrees (m c) (n c))
    → ((c : Context) → Agrees (k c) (l c))
    → (c : Context) → Agrees (gather m k c) ((n >> l) c)
gather-Agrees m k n l h g c = gather_outcomes k l (m c) (n c) (h c) g

lists-Agrees :
    (p : Policy) (e : Effect) (ctx : Context) → Agrees (capture_lists p e ctx) (check_lists p e ctx)
lists-Agrees p e ctx = ground arith

-- In capture mode and in raise mode one effect meets the same fate.
pub evaluate-Agrees :
    (p : Policy) (e : Effect) (phase : Where) (ctx : Context)
    → Agrees (try_evaluate p e phase ctx) (evaluate p e phase ctx)
unfolding evaluate try_evaluate
evaluate-Agrees p e phase ctx =
    gather-Agrees (capture_lists p e) (gather (capture_rules p.rules e) (capture_caps p.caps e))
      (check_lists p e) (check_rules p.rules e >> check_caps p.caps e) (lists-Agrees p e)
      (gather-Agrees (capture_rules p.rules e) (capture_caps p.caps e) (check_rules p.rules e)
        (check_caps p.caps e) (rules-Agrees p.rules e) (caps-Agrees p.caps e))
      (record ctx { phase = phase })

walk-Agrees :
    (p : Policy) (es : List Effect) (ctx : Context) → Agrees (capture_walk p es ctx) (walk p es ctx)
unfolding capture_walk walk
walk-Agrees p [] ctx = (refl, refl)
walk-Agrees p (e ∷ es) ctx =
    gather-Agrees (try_evaluate p e commit) (capture_walk p es) (evaluate p e commit) (walk p es)
      (evaluate-Agrees p e commit) (walk-Agrees p es) ctx

-- The commit-time walk raises the violation of the first denied verdict that `collect_verdicts`
-- captures, and passes, with the same totals, when every captured verdict allows.
pub evaluate_journal-Agrees :
    (p : Policy) (es : List Effect) (ctx : Context)
    → Agrees (collect_verdicts p es ctx) (evaluate_journal p es ctx)
unfolding collect_verdicts evaluate_journal reset_caps
evaluate_journal-Agrees p es ctx = walk-Agrees p es (record ctx { totals = [] })
