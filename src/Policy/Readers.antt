-- ===== src/Policy/Readers.antt =====
-- The world-state rules: `sql_reader` and `refund_if_paid`.
use pherix.Base.{
  String, ◌≡◌, true, not, Option, none, some, ◌==◌, get, Dict, arith, Option-cases, inl, inr,
  if◌then◌else◌,
}
use pherix.Values.{Value, null, is_text}
use pherix.Effects.{Effect}
use pherix.Errors.{Result, ok, err, and_then, Reason, runtime_error, Result-cases}
use pherix.Adapter.{Adapter}
use pherix.Policy.Context.{Context, Verdict, allow, deny, Reader, ReadKey, read}

abbrev or_null : Option Value → Value
or_null none = null
or_null (some v) = v

-- The reader over an adapter map, bound to the world in which it reads.
unfoldable pub sql_reader : {W : Type 0} → Dict (Adapter W) → W → Reader
sql_reader adapters w resource key = elim (get resource adapters) [
  | none ↦ err (runtime_error "ctx.read: no adapter registered for resource")
  | some a ↦ elim a.conn [
    | none ↦ err (runtime_error "ctx.read: adapter has no SQL connection")
    | some query ↦ and_then (query key w) (λ row. ok (or_null row))
  ]
]

-- The arguments of `refund_if_paid`.
pub record RefundRule : Type 0 where
  pub tool : String
  pub table : String
  pub id_arg : String
  pub pk_column : String
  pub status_column : String
  pub paid_value : String
  pub resource : String

abbrev pub order_key : RefundRule → Value → ReadKey
order_key r order_id = record {
  table = r.table;
  pk_column = r.pk_column;
  pk_value = order_id;
  value_column = r.status_column;
}

unfoldable pub refund_if_paid : RefundRule → Effect → Context → Result Verdict
unfolding read
refund_if_paid r e ctx = if not (e.tool == r.tool) then ok allow else elim (get r.id_arg e.args) [
  | none ↦ ok (deny (Reason.no_id_arg r.tool r.id_arg))
  | some order_id ↦
      and_then (read ctx r.resource (order_key r order_id))
        λ status. ok (if is_text status r.paid_value then allow else deny (Reason.not_paid status))
]

-- A refund passes only if the order that its args name reads as paid in the world of the context:
-- whatever the world was when the effect was staged, the walk at commit decides by the world then.
pub refund_needs_paid :
    {W : Type 0} (adapters : Dict (Adapter W)) (w : W) (r : RefundRule) (e : Effect) (ctx : Context)
    → ctx.reader ≡ some (sql_reader adapters w)
    → (e.tool == r.tool) ≡ true
    → refund_if_paid r e ctx ≡ ok allow
    → (order_id : Value) × (status : Value) × (get r.id_arg e.args ≡ some order_id)
      × (sql_reader adapters w r.resource (order_key r order_id) ≡ ok status)
      × (is_text status r.paid_value ≡ true)
unfolding refund_if_paid
refund_needs_paid adapters w r e ctx bound mine passed = elim (Option-cases (get r.id_arg e.args)) [
  | inl missing ↦ ground arith
  | inr (order_id, found) ↦
      elim (Result-cases (sql_reader adapters w r.resource (order_key r order_id))) [
        | inl (status, now) ↦ (order_id, status, found, now, ground arith)
        | inr (x, now) ↦ ground arith
      ]
]
