-- ===== src/Policy/Engine.antt =====
-- `Policy`: the fold of the allow and deny lists, the rules and the caps over one effect, and over
-- a journal, raising on the first denial or capturing every verdict.
use pherix.Base.{
  String, Bool, true, false, Option, none, some, List, [], ◌∷◌, ◌++◌, contains, if◌then◌else◌,
}
use pherix.Effects.{Effect}
use pherix.Errors.{
  Result, ok, err, Exec, pure, gets, modify, skip, ◌>>=◌, ◌>>◌, Where, Reason, RuleName, Violation,
  policy_violation, stage, commit,
}
use pherix.Policy.Context.{Context, Verdict, allow, deny, Rule, PolicyVerdict, reset_caps}
use pherix.Policy.Caps.{Cap, cap_name, applies_to, contribution, cap_add, evaluate_cap}

pub record Policy : Type 0 where
  pub allow_list : Option (List String)
  pub deny_list : List String
  pub rules : List Rule
  pub caps : List Cap
  pub auto_approve : Option (Effect → Result Bool)

abbrev pub allow_all : Policy
allow_all = record { allow_list = none; deny_list = []; rules = []; caps = []; auto_approve = none }

unfoldable pub approves_gate : Policy → Effect → Result Bool
approves_gate p e = elim p.auto_approve [ none ↦ ok false | some f ↦ f e ]

-- The tests that `check`, `evaluate` and `try_evaluate` make on the tool's name.
unfoldable pub list_denial : Policy → String → Option Reason
list_denial p tool =
    if contains tool p.deny_list then some Reason.deny_listed else elim p.allow_list [
      | none ↦ none
      | some names ↦ if contains tool names then none else some Reason.not_allow_listed
    ]

abbrev pub violation : Effect → Where → Option RuleName → Reason → Violation
violation e phase name reason = record {
  tool = e.tool;
  reason = reason;
  phase = phase;
  rule_name = name;
  effect_index = elim phase [ stage ↦ none | commit ↦ some e.index ];
}

-- `if isinstance(verdict, Deny): raise PolicyViolation(...)`
abbrev pub raise_if_deny : Effect → Option RuleName → Verdict → Exec Context (Unit {0})
raise_if_deny e name allow ctx = (ok tt, ctx)
raise_if_deny e name (deny reason) ctx =
    (err (policy_violation (violation e ctx.phase name reason)), ctx)

abbrev pub check_lists : Policy → Effect → Exec Context (Unit {0})
check_lists p e = elim (list_denial p e.tool) [
  | none ↦ skip
  | some reason ↦ raise_if_deny e none (deny reason)
]

unfoldable pub check_rules : List Rule → Effect → Exec Context (Unit {0})
check_rules [] e = skip
check_rules (r ∷ rs) e = do
  verdict ← (λ ctx. (r.fn e ctx, ctx))
  raise_if_deny e (some (RuleName.rule r.name)) verdict
  check_rules rs e

-- `if cap.applies_to(effect): ctx.cap_add(cap, cap.contribution(effect))`
unfoldable pub accumulate : Cap → Effect → Exec Context (Unit {0})
accumulate c e ctx =
    if applies_to c e
    then elim (contribution c e) [
      | ok amount ↦ (ok tt, cap_add c amount ctx)
      | err x ↦ (err x, ctx)
    ]
    else (ok tt, ctx)

unfoldable pub check_caps : List Cap → Effect → Exec Context (Unit {0})
check_caps [] e = skip
check_caps (c ∷ cs) e = do
  verdict ← (λ ctx. (evaluate_cap c e ctx, ctx))
  raise_if_deny e (some (cap_name c)) verdict
  accumulate c e
  check_caps cs e

abbrev pub at_phase : Where → Exec Context (Unit {0})
at_phase phase = modify (λ (ctx : Context). record ctx { phase = phase })

unfoldable pub evaluate : Policy → Effect → Where → Exec Context (Unit {0})
unfolding list_denial check_rules check_caps
evaluate p e phase = do at_phase phase; check_lists p e; check_rules p.rules e; check_caps p.caps e

unfoldable pub walk : Policy → List Effect → Exec Context (Unit {0})
unfolding evaluate
walk p [] = skip
walk p (e ∷ es) = do evaluate p e commit; walk p es

unfoldable pub evaluate_journal : Policy → List Effect → Exec Context (Unit {0})
unfolding walk reset_caps
evaluate_journal p es = do modify reset_caps; walk p es

-- The capture mode.
abbrev pub captured : Effect → Where → Option RuleName → Verdict → PolicyVerdict
captured e phase name verdict = record {
  allowed = elim verdict [ allow ↦ true | deny reason ↦ false ];
  rule_name = name;
  effect_index = e.index;
  phase = phase;
  tool = e.tool;
  reason = elim verdict [ allow ↦ none | deny reason ↦ some reason ];
}

-- One capture after another, their verdicts in one list.
abbrev pub gather :
    Exec Context (List PolicyVerdict)
    → Exec Context (List PolicyVerdict)
    → Exec Context (List PolicyVerdict)
gather m k = do vs ← m; ws ← k; pure (vs ++ ws)

abbrev pub capture_lists : Policy → Effect → Exec Context (List PolicyVerdict)
capture_lists p e ctx = elim (list_denial p e.tool) [
  | none ↦ (ok [], ctx)
  | some reason ↦ (ok (captured e ctx.phase none (deny reason) ∷ []), ctx)
]

unfoldable pub capture_rules : List Rule → Effect → Exec Context (List PolicyVerdict)
capture_rules [] e = pure []
capture_rules (r ∷ rs) e = do
  phase ← gets (λ (ctx : Context). ctx.phase)
  verdict ← (λ ctx. (r.fn e ctx, ctx))
  rest ← capture_rules rs e
  pure (captured e phase (some (RuleName.rule r.name)) verdict ∷ rest)

abbrev pub accumulate_if_allowed : Verdict → Cap → Effect → Exec Context (Unit {0})
accumulate_if_allowed allow c e = accumulate c e
accumulate_if_allowed (deny _) c e = skip

unfoldable pub capture_caps : List Cap → Effect → Exec Context (List PolicyVerdict)
capture_caps [] e = pure []
capture_caps (c ∷ cs) e = do
  phase ← gets (λ (ctx : Context). ctx.phase)
  verdict ← (λ ctx. (evaluate_cap c e ctx, ctx))
  accumulate_if_allowed verdict c e
  rest ← capture_caps cs e
  pure (captured e phase (some (cap_name c)) verdict ∷ rest)

unfoldable pub try_evaluate : Policy → Effect → Where → Exec Context (List PolicyVerdict)
unfolding list_denial capture_rules capture_caps
try_evaluate p e phase = do
  at_phase phase
  gather (capture_lists p e) (gather (capture_rules p.rules e) (capture_caps p.caps e))

unfoldable pub capture_walk : Policy → List Effect → Exec Context (List PolicyVerdict)
unfolding try_evaluate
capture_walk p [] = pure []
capture_walk p (e ∷ es) = gather (try_evaluate p e commit) (capture_walk p es)

unfoldable pub collect_verdicts : Policy → List Effect → Exec Context (List PolicyVerdict)
unfolding capture_walk reset_caps
collect_verdicts p es = do modify reset_caps; capture_walk p es
