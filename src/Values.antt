-- ===== src/Values.antt =====
-- The data that a tool call carries (pherix/core/effects.py): the JSON values of args and results,
-- the keys and the versions of the isolation bookkeeping, and the snapshot handle.
use pherix.Base.{ℕ, String, ℤ, Bool, false, ◌&&◌, List, [], ◌∷◌, ◌==ℕ◌, ◌==ℤ◌, ◌==◌, true, Dict}

-- What `json.dumps` takes natively, floats apart.
mutual
  pub data Value : Type 0 where
    null : Value
    bool : Bool → Value
    int : ℤ → Value
    str : String → Value
    list : Elements → Value
    dict : Entries → Value

  pub data Elements : Type 0 where
    no_element : Elements
    element : Value → Elements → Elements

  pub data Entries : Type 0 where
    no_entry : Entries
    entry : String → Value → Entries → Entries

abbrev pub Args : Type 0
Args = Dict Value

-- `value == text` for a Python value and a str.
abbrev pub is_text : Value → String → Bool
is_text (str s) t = s == t
is_text _ t = false

-- One component of a resource key: a table or a path, or a primary key.
pub data KeyPart : Type 0 where
  text : String → KeyPart
  number : ℤ → KeyPart

abbrev pub Key : Type 0
Key = List KeyPart

-- A version tag: a counter of the SQL family, or a content hash.
pub data Version : Type 0 where
  counter : ℕ → Version
  digest : String → Version

abbrev pub part_eq : KeyPart → KeyPart → Bool
part_eq (text s) (text t) = s == t
part_eq (number m) (number n) = m ==ℤ n
part_eq _ _ = false

abbrev pub key_eq : Key → Key → Bool
key_eq [] [] = true
key_eq (p ∷ k) (q ∷ l) = part_eq p q && key_eq k l
key_eq _ _ = false

abbrev pub version_eq : Version → Version → Bool
version_eq (counter m) (counter n) = m ==ℕ n
version_eq (digest s) (digest t) = s == t
version_eq _ _ = false

-- A triple of `Effect.read_keys` or `Effect.write_keys`.
pub record KeyEntry : Type 0 where
  pub resource : String
  pub key : Key
  pub version : Version

-- `SnapshotHandle`: the handle is opaque to the runtime.
pub record Snapshot : Type 0 where
  pub resource : String
  pub effect_index : ℤ
  pub payload : Value
