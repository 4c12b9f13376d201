-- ===== src/Sql/Execute.antt =====
-- `execute_isolated`, a tool that calls it, and `SQLiteAdapter` as the diff sees it.
use pherix.Base.{
  ℕ, String, Bool, true, none, some, List, [], ◌∷◌, ◌++◌, ◌==◌, ◌&&◌, any, if◌then◌else◌,
}
use pherix.Values.{Value, Args, Key, key_eq, Version, version_eq, KeyEntry}
use pherix.Effects.{Effect}
use pherix.Errors.{Result, ok, err, Exc}
use pherix.Adapter.{Adapter, ToolFn}
use pherix.Sql.{SqlStore, read_version, write_version, publish_intent}

-- The connection, and the keys of the active effect.
pub record Recording (D : Type 0) : Type 0 where
  pub store : SqlStore D
  pub txn_id : String
  pub read_keys : List KeyEntry
  pub write_keys : List KeyEntry

-- What a tool does: statements with the keys that it declares for them.
pub data Body (D : Type 0) : Type 0 where
  returns : Value → Body D
  raises : Exc → Body D
  executes : (D → Result Value × D) → List Key → List Key → (Result Value → Body D) → Body D

abbrev pub same_entry : KeyEntry → KeyEntry → Bool
same_entry a b = a.resource == b.resource && key_eq a.key b.key && version_eq a.version b.version

abbrev pub sql_entry : Key → ℕ → KeyEntry
sql_entry key v = record { resource = "sql"; key = key; version = Version.counter v }

module _ {D : Type 0} (encode_key : Key → String) where
  unfoldable pub record_reads : List Key → Recording D → Recording D
  unfolding read_version
  record_reads [] s = s
  record_reads (key ∷ keys) s =
      let triple = sql_entry key (read_version encode_key key s.store) in
      record_reads keys (
        if any (same_entry triple) s.read_keys
        then s
        else record s { read_keys = s.read_keys ++ triple ∷ [] })

  unfoldable pub record_writes : List Key → Recording D → Recording D
  unfolding write_version publish_intent
  record_writes [] s = s
  record_writes (key ∷ keys) s =
      let (v_after, store) = write_version encode_key key s.store in
      record_writes keys (record s {
        store = publish_intent encode_key s.txn_id key store;
        write_keys = s.write_keys ++ sql_entry key v_after ∷ [];
      })

  -- A statement that raises records nothing.
  unfoldable pub execute_isolated :
      (D → Result Value × D) → List Key → List Key → Recording D → Result Value × Recording D
  unfolding record_reads record_writes
  execute_isolated stmt reads writes s =
      let (r, tables) = stmt s.store.tables in
      let s' : Recording D = record s { store = record s.store { tables = tables } } in
      elim r [ ok v ↦ (ok v, record_writes writes (record_reads reads s')) | err x ↦ (err x, s') ]

  unfoldable pub run_body : Body D → Recording D → Result Value × Recording D
  unfolding execute_isolated
  run_body (returns v) s = (ok v, s)
  run_body (raises x) s = (err x, s)
  run_body (executes stmt reads writes next) s =
      let (r, s') = execute_isolated stmt reads writes s in run_body (next r) s'

  abbrev pub recording_for : Effect → SqlStore D → Recording D
  recording_for e w = record { store = w; txn_id = e.txn_id; read_keys = []; write_keys = [] }

  -- A tool as `apply` calls it: `tool_fn(conn, **effect.args)`.
  unfoldable pub sql_tool : (Args → Body D) → ToolFn (SqlStore D)
  unfolding run_body
  sql_tool body e w =
      let (r, s) = run_body (body e.args) (recording_for e w) in
      record {
        result = r;
        marks = record { read_keys = s.read_keys; write_keys = s.write_keys; snapshot = none };
        world = s.store;
      }

  -- What `SQLiteAdapter` adds to the savepoint lane that it inherits.
  unfoldable pub sql_adapter : Bool → Adapter (SqlStore D) → Adapter (SqlStore D)
  unfolding read_version
  sql_adapter on_disk lane = record lane {
    name = "sql";
    supports_rollback = true;
    apply = λ e f w. f e w;
    read_version = λ key w. ok (Version.counter (read_version encode_key key w));
    reads_committed_only = some on_disk;
  }
