-- ===== src/Policy/Context.antt =====
-- `PolicyContext` and the shapes of rules and verdicts. The context of the source reads the live
-- world through a closure; here the runtime binds that closure to the world of the moment.
use pherix.Base.{ℕ, ℤ, pos, String, Option, none, some, List, [], ◌∷◌, ◌==ℕ◌, if◌then◌else◌, Bool}
use pherix.Values.{Value}
use pherix.Effects.{Effect}
use pherix.Errors.{Result, err, Where, Reason, RuleName, runtime_error}

pub data Verdict : Type 0 where
  allow : Verdict
  deny : Reason → Verdict

-- The key `(table, pk_column, pk_value, value_column)` of a world-state read.
pub record ReadKey : Type 0 where
  pub table : String
  pub pk_column : String
  pub pk_value : Value
  pub value_column : String

abbrev pub Reader : Type 0
Reader = String → ReadKey → Result Value

-- `_cap_totals`: the running total of each cap object, by the object's identity.
abbrev pub Totals : Type 0
Totals = List (ℕ × ℤ)

abbrev pub total_of : ℕ → Totals → ℤ
total_of k [] = pos 0
total_of k ((j, n) ∷ t) = if j ==ℕ k then n else total_of k t

abbrev pub set_total : ℕ → ℤ → Totals → Totals
set_total k n [] = (k, n) ∷ []
set_total k n ((j, m) ∷ t) = if j ==ℕ k then (j, n) ∷ t else (j, m) ∷ set_total k n t

-- The durable totals that the stores hold, by store, cap name and period key.
abbrev pub Spent : Type 0
Spent = ℕ → RuleName → String → ℤ

pub record Context : Type 0 where
  pub journal : List Effect
  pub phase : Where
  pub reader : Option Reader
  pub totals : Totals
  pub spent : Spent
  -- the UTC date on the clock
  pub today : String

unfoldable pub read : Context → Reader
read ctx resource key = elim ctx.reader [
  | none ↦ err (runtime_error "PolicyContext.read called but no read mediator is bound")
  | some r ↦ r resource key
]

unfoldable pub reset_caps : Context → Context
reset_caps ctx = record ctx { totals = [] }

-- `PolicyRule`: a named callable, which may itself raise.
pub record Rule : Type 0 where
  pub name : String
  pub fn : Effect → Context → Result Verdict

-- `PolicyVerdict`; `rule_name` stands for the rule object.
pub record PolicyVerdict : Type 0 where
  pub allowed : Bool
  pub rule_name : Option RuleName
  pub effect_index : ℤ
  pub phase : Where
  pub tool : String
  pub reason : Option Reason
