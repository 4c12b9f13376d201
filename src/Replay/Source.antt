-- ===== src/Replay/Source.antt =====
-- pherix/core/replay.py: the rows of the source transaction as the replay reads them, and the
-- comparison of results.
use Prim.Native.Nat.{◌-◌}
use Prim.Native.String.{len, slice}
use text.Mathlib.Text.{starts_with}
use pherix.Base.{
  ltb_ℤ, String, Bool, ◌&&◌, Option, none, some, List, [], ◌∷◌, ◌==◌, select, if◌then◌else◌,
}
use pherix.Values.{
  Value, Elements, Entries, null, bool, int, str, list, dict, no_element, element, no_entry, entry,
  Args,
}
use pherix.Effects.{Outcome}
use pherix.Errors.{Result, ok, and_then}
use pherix.Audit.{Audit, EffectRow}

-- What json, base64 and the tools give: the comparator of the tool of a name, where it has one, the
-- sorted JSON text of a result, and what a base64 text stands for.
pub record Codec : Type 0 where
  pub comparator : String → Option (Outcome → Outcome → Result Bool)
  pub canonical_json : Outcome → Result String
  pub b64decode : String → Result Value

abbrev pub ends_with_bracket : String → Bool
ends_with_bracket s = slice s (len s - 1) (len s) == ">"

module _ (codec : Codec) where
  -- `_decode_bytes`
  abbrev pub decode_text : String → Result Value
  decode_text s =
      if starts_with s "<bytes:b64:" && ends_with_bracket s
      then codec.b64decode (slice s (len "<bytes:b64:") (len s - 1))
      else ok (str s)

  unfoldable mutual
    pub decode_bytes : Value → Result Value
    decode_bytes (str s) = decode_text s
    decode_bytes (list vs) = and_then (decode_elements vs) λ ws. ok (list ws)
    decode_bytes (dict vs) = and_then (decode_entries vs) λ ws. ok (dict ws)
    decode_bytes null = ok null
    decode_bytes (bool b) = ok (bool b)
    decode_bytes (int n) = ok (int n)

    pub decode_elements : Elements → Result Elements
    decode_elements no_element = ok no_element
    decode_elements (element v vs) =
        and_then (decode_bytes v) λ w. and_then (decode_elements vs) λ ws. ok (element w ws)

    pub decode_entries : Entries → Result Entries
    decode_entries no_entry = ok no_entry
    decode_entries (entry k v vs) =
        and_then (decode_bytes v) λ w. and_then (decode_entries vs) λ ws. ok (entry k w ws)

  abbrev pub decode_args : Args → Result Args
  decode_args [] = ok []
  decode_args ((k, v) ∷ args) =
      and_then (decode_bytes v) λ w. and_then (decode_args args) λ ws. ok ((k, w) ∷ ws)

  -- A staged result holds a hash, which is no sentinel.
  abbrev pub decode_result : Outcome → Result Outcome
  decode_result Outcome.missing = ok Outcome.missing
  decode_result (Outcome.staged_result id) = ok (Outcome.staged_result id)
  decode_result (Outcome.returned v) = and_then (decode_bytes v) λ w. ok (Outcome.returned w)

  -- `_load_source_effect`
  unfoldable pub load_source_effect : EffectRow → Result EffectRow
  unfolding decode_bytes
  load_source_effect row = and_then (decode_args row.args) λ args.
      and_then (decode_result row.result) λ result. ok (record row { args = args; result = result })

  unfoldable pub load_source_effects : List EffectRow → Result (List EffectRow)
  unfolding load_source_effect
  load_source_effects [] = ok []
  load_source_effects (row ∷ rows) =
      and_then (load_source_effect row)
        λ src. and_then (load_source_effects rows) λ rest. ok (src ∷ rest)

  -- `_default_comparator`
  unfoldable pub default_comparator : Outcome → Outcome → Result Bool
  default_comparator recorded replayed =
      and_then (codec.canonical_json recorded)
        λ a. and_then (codec.canonical_json replayed) λ b. ok (a == b)

  -- `_compare`
  unfoldable pub compare_results : String → Outcome → Outcome → Result Bool
  unfolding default_comparator
  compare_results tool recorded replayed = elim (codec.comparator tool) [
    | none ↦ default_comparator recorded replayed
    | some f ↦ f recorded replayed
  ]

-- `ORDER BY idx`
abbrev pub insert_asc : EffectRow → List EffectRow → List EffectRow
insert_asc row [] = row ∷ []
insert_asc row (r ∷ rows) = if ltb_ℤ r.idx row.idx then r ∷ insert_asc row rows else row ∷ r ∷ rows

abbrev pub sort_asc : List EffectRow → List EffectRow
sort_asc [] = []
sort_asc (row ∷ rows) = insert_asc row (sort_asc rows)

-- `AuditJournal.get_effects`
unfoldable pub get_effects : String → Audit → List EffectRow
get_effects txn_id a = sort_asc (select (λ (row : EffectRow). row.txn_id == txn_id) a.effects)
