-- ===== src/Memory/Handle.antt =====
-- `MemoryHandle`, bound to an effect and to its adapter, and a tool that uses it.
use pherix.Base.{String, Option, none, some, List, [], ◌∷◌, ◌++◌, contains, if◌then◌else◌}
use pherix.Values.{Value, str, Key, KeyPart, text, number, Version, KeyEntry}
use pherix.Errors.{Result, ok, err, Exc, value_error}
use pherix.Memory.{Rows, Texts, select_value, upsert, delete_value}

pub record Handle : Type 0 where
  pub rows : Rows
  pub read_keys : List KeyEntry
  pub write_keys : List KeyEntry
  pub recorded_reads : List String

-- What a tool does with its handle: it may branch on what it recalls.
pub data Body : Type 0 where
  returns : Value → Body
  raises : Exc → Body
  remembers : String → Value → Body → Body
  recalls : String → (Option String → Body) → Body
  forgets : String → Body → Body

abbrev pub version_of_value : Texts → Option String → Version
version_of_value t none = Version.digest "__missing__"
version_of_value t (some value) = Version.digest (t.sha256 value)

-- `payload = value if isinstance(value, str) else json.dumps(value)`
abbrev pub payload_text : Texts → Value → String
payload_text t (str s) = s
payload_text t v = t.json_dumps v

module _ (t : Texts) (namespace : String) where
  -- SQLite compares the text of the column with the text of a number.
  abbrev key_text : KeyPart → String
  key_text (text s) = s
  key_text (number n) = t.index_text n

  -- `read_version`
  unfoldable pub read_version : Key → Rows → Result Version
  unfolding select_value
  read_version (part ∷ []) rows =
      ok (version_of_value t (select_value namespace (key_text part) rows))
  read_version _ rows = err (value_error "MemoryAdapter version key must be a 1-tuple (mem_key,)")

  abbrev pub version_now : String → Rows → Version
  version_now key rows = version_of_value t (select_value namespace key rows)

  abbrev pub key_entry : String → Rows → KeyEntry
  key_entry key rows = record {
    resource = "memory";
    key = text key ∷ [];
    version = version_now key rows;
  }

  -- `_record_read_key` and `_record_write_key`
  unfoldable pub record_read_key : String → Handle → Handle
  record_read_key key s = if contains key s.recorded_reads then s else record s {
    read_keys = s.read_keys ++ key_entry key s.rows ∷ [];
    recorded_reads = key ∷ s.recorded_reads;
  }

  unfoldable pub record_write_key : String → Handle → Handle
  record_write_key key s = record s { write_keys = s.write_keys ++ key_entry key s.rows ∷ [] }

  unfoldable pub remember : String → Value → Handle → Handle
  unfolding upsert record_write_key
  remember key value s =
      record_write_key key (record s { rows = upsert namespace key (payload_text t value) s.rows })

  unfoldable pub recall : String → Handle → Option String × Handle
  unfolding select_value record_read_key
  recall key s = (select_value namespace key s.rows, record_read_key key s)

  unfoldable pub forget : String → Handle → Handle
  unfolding delete_value record_write_key
  forget key s = record_write_key key (record s { rows = delete_value namespace key s.rows })

  unfoldable pub run_body : Body → Handle → Result Value × Handle
  unfolding remember recall forget
  run_body (returns v) s = (ok v, s)
  run_body (raises x) s = (err x, s)
  run_body (remembers key value next) s = run_body next (remember key value s)
  run_body (recalls key next) s = let (found, s') = recall key s in run_body (next found) s'
  run_body (forgets key next) s = run_body next (forget key s)
