-- ===== src/Policy/Tiers.antt =====
-- The authority policy: `TrustTiers`, `untrusted_gates_irreversible` and `admin_auto_approves`.
pub mod Ladder
use pherix.Base.{
  ℕ, String, Bool, true, false, not, ◌||◌, Option, none, some, List, [], ◌∷◌, ◌==◌, leb, contains,
  any, if◌then◌else◌,
}
use pherix.Effects.{Effect}
use pherix.Errors.{Result, ok, err, and_then, Reason, value_error, key_error}
use pherix.Policy.Context.{Context, Verdict, allow, deny}

-- `_TIER_ORDER.get(tier)`
unfoldable pub tier_order : String → Option ℕ
tier_order tier =
    if tier == "untrusted"
    then some 0
    else if tier == "trusted"
    then some 1
    else if tier == "admin"
    then some 2
    else none

-- A frozenset is a list of its members.
pub record TrustTiers : Type 0 where
  pub admin : List String
  pub trusted : List String
  pub untrusted : List String
  pub default_tier : String
  pub unknown_tier : String

abbrev known : String → Bool
known tier = elim (tier_order tier) [ none ↦ false | some n ↦ true ]

abbrev pub overlap : List String → List String → Bool
overlap s t = any (λ a. contains a t) s

-- `TrustTiers(...)`
unfoldable pub new_tiers :
    List String → List String → List String → String → String → Result TrustTiers
unfolding tier_order
new_tiers admin trusted untrusted default_tier unknown_tier =
    if not (known default_tier)
    then err (value_error "TrustTiers.default_tier is not a known tier")
    else if not (known unknown_tier)
    then err (value_error "TrustTiers.unknown_tier is not a known tier")
    else if overlap admin trusted || (overlap admin untrusted || overlap trusted untrusted)
    then err (value_error "TrustTiers: an actor appears in more than one tier")
    else ok (record {
      admin = admin;
      trusted = trusted;
      untrusted = untrusted;
      default_tier = default_tier;
      unknown_tier = unknown_tier;
    })

unfoldable pub tier_of : TrustTiers → Option String → String
tier_of t none = t.default_tier
tier_of t (some actor) =
    if contains actor t.admin
    then "admin"
    else if contains actor t.trusted
    then "trusted"
    else if contains actor t.untrusted
    then "untrusted"
    else t.unknown_tier

unfoldable pub rank_of : TrustTiers → Option String → Result ℕ
unfolding tier_of tier_order
rank_of t actor = elim (tier_order (tier_of t actor)) [
  | none ↦ err (key_error (tier_of t actor))
  | some n ↦ ok n
]

unfoldable pub at_least : TrustTiers → Option String → String → Result Bool
unfolding rank_of tier_order
at_least t actor tier = elim (tier_order tier) [
  | none ↦ err (value_error "unknown tier")
  | some n ↦ and_then (rank_of t actor) (λ m. ok (leb n m))
]

unfoldable pub untrusted_gates_irreversible :
    TrustTiers → String → Effect → Context → Result Verdict
unfolding at_least
untrusted_gates_irreversible t min_tier e ctx =
    if e.reversible
    then ok allow
    else and_then (at_least t e.actor min_tier)
        λ enough. ok (if enough then allow else deny (Reason.below_tier (tier_of t e.actor)))

unfoldable pub admin_auto_approves : TrustTiers → String → Effect → Result Bool
unfolding at_least
admin_auto_approves t min_tier e = at_least t e.actor min_tier
