-- ===== src/Envelope.antt =====
-- pherix/core/envelope.py: the durable totals and the increments that a commit flushes. A store is
-- known by its identity; its table maps a cap name and a period key to a total. Amounts are whole.
use pherix.Base.{
  ℕ, ◌==ℕ◌, ℤ, pos, ◌+ℤ◌, ◌==ℤ◌, String, ◌==◌, Bool, false, ◌&&◌, List, [], ◌∷◌, Option, none, some,
  if◌then◌else◌,
}
use pherix.Effects.{Effect}
use pherix.Errors.{Result, ok, and_then, RuleName}
use pherix.Policy.Context.{Spent}
use pherix.Policy.Caps.{Cap, Kind, Envelope, period_key, cap_name, applies_to, contribution}

abbrev pub name_eq : RuleName → RuleName → Bool
name_eq (RuleName.rule s) (RuleName.rule t) = s == t
name_eq (RuleName.cap_count s m) (RuleName.cap_count t n) = s == t && m ==ℤ n
name_eq (RuleName.cap_sum s m) (RuleName.cap_sum t n) = s == t && m ==ℤ n
name_eq (RuleName.durable_count s m) (RuleName.durable_count t n) = s == t && m ==ℤ n
name_eq (RuleName.durable_sum s m) (RuleName.durable_sum t n) = s == t && m ==ℤ n
name_eq (RuleName.label s) (RuleName.label t) = s == t
name_eq _ _ = false

-- `EnvelopeStore.add`, the upsert.
unfoldable pub add : ℕ → RuleName → String → ℤ → Spent → Spent
add store name period amount spent st n p =
    if st ==ℕ store && (name_eq n name && p == period) then spent st n p +ℤ amount else spent st n p

-- `EnvelopeIncrement`
pub record Increment : Type 0 where
  pub store : ℕ
  pub name : RuleName
  pub period : String
  pub amount : ℤ

-- The store and the period of a durable cap; `is_durable_cap` asks whether there is one.
abbrev pub envelope_of : Cap → Option Envelope
envelope_of c = elim c.kind [
  | Kind.count ↦ none
  | Kind.sum via ↦ none
  | Kind.durable_count v ↦ some v
  | Kind.durable_sum via v ↦ some v
]

-- `sum(cap.contribution(e) for e in journal if cap.applies_to(e))`
unfoldable pub consumption : Cap → List Effect → Result ℤ
consumption c [] = ok (pos 0)
consumption c (e ∷ es) =
    let rest = consumption c es in
    if applies_to c e
    then and_then (contribution c e) (λ n. and_then rest (λ m. ok (n +ℤ m)))
    else rest

abbrev increment : Cap → Envelope → String → ℤ → Increment
increment c v today amount = record {
  store = v.store;
  name = cap_name c;
  period = period_key v.period today;
  amount = amount;
}

-- `pending_increments` of the durable caps among `caps`.
unfoldable pub pending_increments : String → List Effect → List Cap → Result (List Increment)
unfolding consumption
pending_increments today journal [] = ok []
pending_increments today journal (c ∷ cs) =
    let rest = pending_increments today journal cs in
    elim (envelope_of c) [
      | none ↦ rest
      | some v ↦ and_then (consumption c journal) λ amount.
          and_then rest
            λ incs. ok (if amount ==ℤ pos 0 then incs else increment c v today amount ∷ incs)
    ]

unfoldable pub flush_increments : List Increment → Spent → Spent
unfolding add
flush_increments [] spent = spent
flush_increments (i ∷ is) spent = flush_increments is (add i.store i.name i.period i.amount spent)
