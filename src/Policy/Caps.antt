-- ===== src/Policy/Caps.antt =====
-- The spend caps: `Cap.count`, `Cap.sum` (policy.py) and the durable caps (envelope.py). Amounts
-- are whole units, so floats are not modelled.
use pherix.Base.{
  ℕ, ℤ, pos, ◌+ℤ◌, ltb_ℤ, ◌==ℤ◌, String, Bool, not, ◌&&◌, Option, none, some, List, [], ◌∷◌, ◌==◌,
  if◌then◌else◌,
}
use pherix.Values.{Args}
use pherix.Effects.{Effect}
use pherix.Errors.{Result, ok, and_then, RuleName, Reason}
use pherix.Policy.Context.{Context, Verdict, allow, deny, total_of, set_total}

-- The two period functions: the UTC date, and the one bucket that never rolls.
pub data Period : Type 0 where
  day_period all_time_period : Period

-- What a durable cap has beside its tool and its limit.
pub record Envelope : Type 0 where
  pub store : ℕ
  pub period : Period
  pub label : Option String

pub data Kind : Type 0 where
  count : Kind
  sum : (Args → Result ℤ) → Kind
  durable_count : Envelope → Kind
  durable_sum : (Args → Result ℤ) → Envelope → Kind

pub record Cap : Type 0 where
  -- `id(cap)`
  pub ident : ℕ
  pub tool : String
  pub max : ℤ
  pub kind : Kind

unfoldable pub period_key : Period → String → String
period_key day_period today = today
period_key all_time_period today = "all-time"

abbrev or_label : Option String → RuleName → RuleName
or_label none n = n
or_label (some s) n = if s == "" then n else RuleName.label s

unfoldable pub cap_name : Cap → RuleName
cap_name c = elim c.kind [
  | count ↦ RuleName.cap_count c.tool c.max
  | sum via ↦ RuleName.cap_sum c.tool c.max
  | durable_count v ↦ or_label v.label (RuleName.durable_count c.tool c.max)
  | durable_sum via v ↦ or_label v.label (RuleName.durable_sum c.tool c.max)
]

unfoldable pub applies_to : Cap → Effect → Bool
applies_to c e = e.tool == c.tool

unfoldable pub contribution : Cap → Effect → Result ℤ
contribution c e = elim c.kind [
  | count ↦ ok (pos 1)
  | sum via ↦ via e.args
  | durable_count v ↦ ok (pos 1)
  | durable_sum via v ↦ via e.args
]

unfoldable pub cap_running : Cap → Context → ℤ
cap_running c ctx = total_of c.ident ctx.totals

unfoldable pub cap_add : Cap → ℤ → Context → Context
unfolding cap_running
cap_add c value ctx = record ctx {
  totals = set_total c.ident (cap_running c ctx +ℤ value) ctx.totals;
}

-- `_in_txn_count` and `_in_txn_sum`: what the journal holds for the cap, the effect under
-- evaluation left out. An object of the journal is known by its index.
unfoldable pub in_txn : Cap → Effect → List Effect → Result ℤ
unfolding applies_to contribution
in_txn c current [] = ok (pos 0)
in_txn c current (e ∷ es) =
    let rest = in_txn c current es in
    if applies_to c e && not (e.index ==ℤ current.index)
    then and_then (contribution c e) (λ n. and_then rest (λ m. ok (n +ℤ m)))
    else rest

-- The test of every cap, on what is spent already and what the effect would add.
abbrev pub within : ℤ → (ℤ → Reason) → ℤ → ℤ → Verdict
within max reason spent amount = if ltb_ℤ max (spent +ℤ amount) then deny (reason spent) else allow

unfoldable pub durable_verdict : Cap → Envelope → (ℤ → Reason) → Effect → Context → Result Verdict
unfolding in_txn contribution cap_name period_key
durable_verdict c v reason e ctx =
    let baseline = ctx.spent v.store (cap_name c) (period_key v.period ctx.today) in
    and_then (in_txn c e ctx.journal) λ so_far.
      and_then (contribution c e) λ amount. ok (within c.max reason (baseline +ℤ so_far) amount)

-- `evaluate` of the four cap classes.
unfoldable pub evaluate_cap : Cap → Effect → Context → Result Verdict
unfolding applies_to cap_running durable_verdict
evaluate_cap c e ctx = if not (applies_to c e) then ok allow else elim c.kind [
  | count ↦ ok (within c.max (λ n. Reason.over_count c.max n c.tool) (cap_running c ctx) (pos 1))
  | sum via ↦
      and_then (via e.args)
        λ amount. ok (within c.max (λ n. Reason.over_sum c.max n c.tool) (cap_running c ctx) amount)
  | durable_count v ↦ durable_verdict c v (λ n. Reason.over_count c.max n c.tool) e ctx
  | durable_sum via v ↦ durable_verdict c v (λ n. Reason.over_sum c.max n c.tool) e ctx
]
