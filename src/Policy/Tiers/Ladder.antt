-- ===== src/Policy/Tiers/Ladder.antt =====
-- What the constructor of `TrustTiers` guarantees, and how the two authority rules fit together.
use pherix.Base.{
  ℕ, ◌≤◌, leb, String, ◌≡◌, refl, Bool, true, false, Option, none, some, List, [], ◌∷◌, arith,
  contains, if◌then◌else◌, eq_iff, Option-cases, inl, inr,
}
use pherix.Effects.{Effect}
use pherix.Errors.{ok}
use pherix.Policy.Context.{Context, allow}
use pherix.Policy.Tiers.{
  TrustTiers, overlap, new_tiers, tier_order, tier_of, rank_of, at_least,
  untrusted_gates_irreversible, admin_auto_approves, known,
}

overlap-false :
    (a : String) (s t : List String)
    → overlap s t ≡ false
    → contains a s ≡ true
    → contains a t ≡ false
overlap-false a [] t h m = cc
overlap-false a (b ∷ s) t h m = ground (arith, overlap-false a s t, eq_iff b a)

-- What `TrustTiers.__init__` has checked when it returns.
pub record IsValid (t : TrustTiers) : Type 0 where
  pub default_known : known t.default_tier ≡ true
  pub unknown_known : known t.unknown_tier ≡ true
  pub admin_trusted : overlap t.admin t.trusted ≡ false
  pub admin_untrusted : overlap t.admin t.untrusted ≡ false
  pub trusted_untrusted : overlap t.trusted t.untrusted ≡ false

module _ (admin trusted untrusted : List String) (default_tier unknown_tier : String) where
  new_tiers-IsValid :
      (t : TrustTiers)
      → new_tiers admin trusted untrusted default_tier unknown_tier ≡ ok t
      → IsValid t
  unfolding new_tiers
  new_tiers-IsValid t h = ground arith

-- The chain of tests in `tier_of`, whatever they say.
chain-known :
    (a b c : Bool) (unknown : String)
    → known unknown ≡ true
    → known (if a then "admin" else if b then "trusted" else if c then "untrusted" else unknown)
      ≡ true
unfolding tier_order
chain-known true b c u h = refl
chain-known false true c u h = refl
chain-known false false true u h = refl
chain-known false false false u h = h

tier_of-known :
    (t : TrustTiers) (actor : Option String) → IsValid t → known (tier_of t actor) ≡ true
unfolding tier_of tier_order
tier_of-known t none v = v.default_known
tier_of-known t (some a) v =
    chain-known (contains a t.admin) (contains a t.trusted) (contains a t.untrusted) t.unknown_tier
      v.unknown_known

known-rank : (tier : String) → known tier ≡ true → (n : ℕ) × (tier_order tier ≡ some n)
known-rank tier h = elim (Option-cases (tier_order tier)) [
  | inl e ↦ ground arith
  | inr (n, e) ↦ (n, e)
]

module _ (admin trusted untrusted : List String) (default_tier unknown_tier : String)
    (t : TrustTiers) (actor : Option String) (tier : String) (m : ℕ) where
  -- In tiers that the constructor has returned, every actor, listed or not, declared or not, has a
  -- rank: `rank_of` raises no KeyError. On a tier with a rank of its own, `at_least` returns too,
  -- and compares the two ranks.
  pub rank_of-total :
      new_tiers admin trusted untrusted default_tier unknown_tier ≡ ok t
      → tier_order tier ≡ some m
      → (n : ℕ) × (rank_of t actor ≡ ok n) × (at_least t actor tier ≡ ok (leb m n))
  unfolding rank_of at_least
  rank_of-total made ranked =
      let valid = new_tiers-IsValid admin trusted untrusted default_tier unknown_tier t made in
      let (n, e) = known-rank (tier_of t actor) (tier_of-known t actor valid) in
      (n, rw (rank_of, e) refl, rw (at_least, ranked, rank_of, e) refl)

-- The tier of a listed actor is that of its set, whichever set that is.
pub tier_of-listed :
    (t : TrustTiers) (a : String)
    → IsValid t
    → (contains a t.admin ≡ true → tier_of t (some a) ≡ "admin")
      × (contains a t.trusted ≡ true → tier_of t (some a) ≡ "trusted")
      × (contains a t.untrusted ≡ true → tier_of t (some a) ≡ "untrusted")
unfolding tier_of
tier_of-listed t a v = (
  λ h. ground arith,
  λ h. ground (arith, overlap-false a t.admin t.trusted),
  λ h. ground (arith, overlap-false a t.admin t.untrusted, overlap-false a t.trusted t.untrusted),
)

module _ (t : TrustTiers) (e : Effect) (ctx : Context) (low high : String) (m n : ℕ)
    (low_rank : tier_order low ≡ some m) (high_rank : tier_order high ≡ some n) (le : m ≤ n) where
  -- With one set of tiers, and the gate rule at a tier no higher than the approval, what the
  -- approval predicate lets past the gate the gate rule does not deny.
  pub approved_not_gated :
      admin_auto_approves t high e ≡ ok true → untrusted_gates_irreversible t low e ctx ≡ ok allow
  unfolding admin_auto_approves untrusted_gates_irreversible at_least
  approved_not_gated h = ground arith
