-- ===== src/Memory/Guard.antt =====
-- pherix/core/memory.py: the policy of the memory. A compiled pattern is a parameter.
use pherix.Base.{
  ℤ, pos, String, Bool, not, Option, none, some, List, [], ◌∷◌, get, contains, if◌then◌else◌, ℕ,
}
use pherix.Values.{Value, Args, str}
use pherix.Effects.{Effect}
use pherix.Errors.{Result, ok, Reason}
use pherix.Policy.Context.{Context, Verdict, allow, deny}
use pherix.Policy.Caps.{Cap, Kind}

-- A label, and `re.compile(pattern).search(text) is not None`.
pub record Pattern : Type 0 where
  pub label : String
  pub matches : String → Bool

pub record Guard : Type 0 where
  pub tools : List String
  pub value_arg : String
  pub patterns : List Pattern

-- `value if isinstance(value, str) else _json(value)`
abbrev pub text_of : (Value → String) → Value → String
text_of json_dumps (str s) = s
text_of json_dumps v = json_dumps v

-- The loop over the compiled patterns.
unfoldable pub first_match : List Pattern → String → Option String
first_match [] text = none
first_match (p ∷ ps) text = if p.matches text then some p.label else first_match ps text

module _ (json_dumps : Value → String) where
  unfoldable pub no_pii : Guard → Effect → Context → Result Verdict
  unfolding first_match
  no_pii g e ctx =
      if not (contains e.tool g.tools) then ok allow else elim (get g.value_arg e.args) [
        | none ↦ ok allow
        | some value ↦ elim (first_match g.patterns (text_of json_dumps value)) [
          | none ↦ ok allow
          | some label ↦ ok (deny (Reason.matches_pattern e.tool label))
        ]
      ]

  -- `_via` of `memory_byte_cap`; `utf8_length` is `len(text.encode("utf-8"))`.
  unfoldable pub byte_length : (String → ℕ) → String → Args → Result ℤ
  byte_length utf8_length value_arg args = elim (get value_arg args) [
    | none ↦ ok (pos (utf8_length ""))
    | some value ↦ ok (pos (utf8_length (text_of json_dumps value)))
  ]

  -- `memory_byte_cap`
  unfoldable pub memory_byte_cap : (String → ℕ) → ℕ → ℤ → String → String → Cap
  unfolding byte_length
  memory_byte_cap utf8_length ident max_bytes tool value_arg = record {
    ident = ident;
    tool = tool;
    max = max_bytes;
    kind = Kind.sum (byte_length utf8_length value_arg);
  }
