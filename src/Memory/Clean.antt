-- ===== src/Memory/Clean.antt =====
-- What the policy of the memory lets through.
use pherix.Base.{
  String, ◌≡◌, true, false, none, some, List, [], ◌∷◌, ◌++◌, get, contains, All, All-map, arith,
  inl, inr, Option-cases,
}
use pherix.Values.{Value}
use pherix.Effects.{Effect}
use pherix.Errors.{ok, commit, >>=-ok, >>-ok, ◌>>◌, RuleName, Result-cases}
use pherix.Policy.Context.{Context, Rule, allow, deny, reset_caps}
use pherix.Policy.Engine.{
  Policy, at_phase, check_lists, check_rules, check_caps, evaluate, walk, evaluate_journal,
  raise_if_deny,
}
use pherix.Memory.Guard.{Pattern, Guard, text_of, first_match, no_pii}

-- The rule allowed the effect, in some context.
abbrev Allowed : Rule → Effect → Type 0
Allowed r e = (ctx : Context) × (r.fn e ctx ≡ ok allow)

check_rules-Allowed :
    (r : Rule) (before after : List Rule) (e : Effect) (ctx ctx' : Context)
    → check_rules (before ++ r ∷ after) e ctx ≡ (ok tt, ctx')
    → Allowed r e
unfolding check_rules
check_rules-Allowed r [] after e ctx ctx' h = (
  ctx,
  elim (Result-cases (r.fn e ctx)) [
    | inl (allow, decided) ↦ decided
    | inl (deny reason, decided) ↦ ground arith
    | inr (x, raised_it) ↦ ground arith
  ],
)
check_rules-Allowed r (b ∷ before) after e ctx ctx' h =
    let (_, t, _, k) =
      >>=-ok (λ ctx. (b.fn e ctx, ctx))
        (λ verdict.
          raise_if_deny e (some (RuleName.rule b.name)) verdict
          >> check_rules (before ++ r ∷ after) e)
        ctx ctx' tt h in
    let (_, u, _, rest) =
      >>-ok (raise_if_deny e (some (RuleName.rule b.name)) _) (check_rules (before ++ r ∷ after) e)
        t ctx' tt k in
    check_rules-Allowed r before after e u ctx' rest

evaluate-Allowed :
    (p : Policy) (r : Rule) (before after : List Rule) (e : Effect) (ctx ctx' : Context)
    → p.rules ≡ before ++ r ∷ after
    → evaluate p e commit ctx ≡ (ok tt, ctx')
    → Allowed r e
unfolding evaluate
evaluate-Allowed p r before after e ctx ctx' has h =
    let (_, t, _, k) =
      >>-ok (at_phase commit) (check_lists p e >> (check_rules p.rules e >> check_caps p.caps e))
        ctx ctx' tt h in
    let (_, u, _, l) =
      >>-ok (check_lists p e) (check_rules p.rules e >> check_caps p.caps e) t ctx' tt k in
    let (_, v, passed, _) = >>-ok (check_rules p.rules e) (check_caps p.caps e) u ctx' tt l in
    check_rules-Allowed r before after e u v (rw has at passed)

walk-Allowed :
    (p : Policy) (r : Rule) (before after : List Rule) (es : List Effect) (ctx ctx' : Context)
    → p.rules ≡ before ++ r ∷ after
    → walk p es ctx ≡ (ok tt, ctx')
    → All (Allowed r) es
unfolding walk
walk-Allowed p r before after [] ctx ctx' has h = tt
walk-Allowed p r before after (e ∷ es) ctx ctx' has h =
    let (_, t, first, rest) = >>-ok (evaluate p e commit) (walk p es) ctx ctx' tt h in
    (
      evaluate-Allowed p r before after e ctx t has first,
      walk-Allowed p r before after es t ctx' has rest,
    )

first_match-none :
    (ps : List Pattern) (text : String)
    → first_match ps text ≡ none
    → All (λ (p : Pattern). p.matches text ≡ false) ps
unfolding first_match
first_match-none [] text h = tt
first_match-none (p ∷ ps) text h = (ground arith, first_match-none ps text (ground arith))

module _ (json_dumps : Value → String) (g : Guard) where
  -- A value that a guarded tool stores matches no pattern.
  abbrev pub IsClean : Effect → Type 0
  IsClean e =
      contains e.tool g.tools ≡ true
      → (value : Value) → get g.value_arg e.args ≡ some value
      → All (λ (p : Pattern). p.matches (text_of json_dumps value) ≡ false) g.patterns

  no_pii-IsClean :
      (name : String) (e : Effect)
      → Allowed (record { name = name; fn = no_pii json_dumps g }) e
      → IsClean e
  unfolding no_pii
  no_pii-IsClean name e (ctx, allowed) guarded value found =
      first_match-none g.patterns (text_of json_dumps value)
        (elim (Option-cases (first_match g.patterns (text_of json_dumps value))) [
          | inl clean ↦ clean
          | inr (label, hit) ↦ ground arith
        ])

  -- A journal that passes a policy with the rule, among any others, holds no effect of a guarded tool
  -- whose value, as text, matches one of the patterns.
  pub passed-IsClean :
      (p : Policy) (name : String) (before after : List Rule) (es : List Effect)
      (ctx ctx' : Context)
      → p.rules ≡ before ++ record { name = name; fn = no_pii json_dumps g } ∷ after
      → evaluate_journal p es ctx ≡ (ok tt, ctx')
      → All IsClean es
  unfolding evaluate_journal
  passed-IsClean p name before after es ctx ctx' has h =
      All-map (Allowed (record { name = name; fn = no_pii json_dumps g })) IsClean es
        (no_pii-IsClean name)
        (walk-Allowed p (record { name = name; fn = no_pii json_dumps g }) before after es
          (reset_caps ctx) ctx' has h)
