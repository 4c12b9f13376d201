-- ===== src/Memory/Store.antt =====
-- `MemoryAdapter`: the bracket, snapshots as savepoints, the tools of a handle, and the structural
-- diff.
use Prim.Native.String.{◌++◌ as ◌++ˢ◌}
use pherix.Base.{
  ℕ, ℤ, String, true, not, Option, none, some, [], ◌∷◌, ◌==◌, Dict, select, if◌then◌else◌,
}
use pherix.Values.{Value, str, dict, entry, no_entry, Args, Snapshot}
use pherix.Effects.{Effect}
use pherix.Errors.{Result, ok, Exec, raise, raised}
use pherix.Adapter.{Adapter, Run, ToolFn}
use pherix.Policy.Context.{ReadKey}
use pherix.Memory.{
  Rows, Database, Texts, begin_db, commit_db, rollback_db, savepoint_db, rollback_to_db,
}
use pherix.Filesystem.Handle.{has_key}
use pherix.Filesystem.Store.{StateDiff, paths_of, changed_in}
use pherix.Memory.Handle.{Handle, Body, read_version, run_body}

module _ (t : Texts) where
  -- `_savepoint_name`
  unfoldable pub savepoint_name : ℤ → String
  savepoint_name index = "mem_sp_" ++ˢ t.index_text index

  unfoldable pub snapshot : Effect → Exec Database Snapshot
  unfolding savepoint_name savepoint_db
  snapshot e w =
      let sp = savepoint_name e.index in
      (
        ok (record {
          resource = "memory";
          effect_index = e.index;
          payload = dict (entry "savepoint" (str sp) no_entry);
        }),
        savepoint_db sp w,
      )

  -- `handle.payload["savepoint"]`
  unfoldable pub savepoint_of : Value → Option String
  savepoint_of (dict (entry k (str sp) no_entry)) = if k == "savepoint" then some sp else none
  savepoint_of _ = none

  unfoldable pub restore : Snapshot → Exec Database (Unit {0})
  unfolding savepoint_of rollback_to_db
  restore handle = elim (savepoint_of handle.payload) [
    | none ↦ raise (raised "KeyError")
    | some sp ↦ rollback_to_db sp
  ]

  module _ (namespace : String) where
    abbrev pub handle_for : Database → Handle
    handle_for w = record { rows = w.rows; read_keys = []; write_keys = []; recorded_reads = [] }

    abbrev pub finished_run : Effect → Database → Result Value × Handle → Run Database
    finished_run e w (r, s) = record {
      result = r;
      marks = record { read_keys = s.read_keys; write_keys = s.write_keys; snapshot = none };
      world = record w { rows = s.rows };
    }

    -- A tool as `apply` calls it: `tool_fn(handle, **effect.args)`.
    unfoldable pub memory_tool : (Args → Body) → ToolFn Database
    unfolding run_body
    memory_tool body e w = finished_run e w (run_body t namespace (body e.args) (handle_for w))

    -- `query` is the query of a world-state rule on the connection.
    unfoldable pub memory_adapter :
        ℕ → (ReadKey → Database → Result (Option Value)) → Adapter Database
    unfolding snapshot restore begin_db commit_db rollback_db read_version
    memory_adapter ident query = record {
      ident = ident;
      name = "memory";
      supports_rollback = true;
      snapshot = snapshot;
      apply = λ e f w. f e w;
      restore = restore;
      transactional = true;
      begin_txn = begin_db;
      commit_txn = commit_db;
      rollback_txn = rollback_db;
      read_version = λ k w. read_version t namespace k w.rows;
      reads_committed_only = none;
      conn = some query;
    }

-- `_dump`
unfoldable pub dump : String → Rows → Dict String
dump namespace [] = []
dump namespace (row ∷ rows) =
    if row.namespace == namespace
    then (row.mem_key, row.value) ∷ dump namespace rows
    else dump namespace rows

-- `state_baseline` and `state_diff`: the keys added, modified and deleted since the baseline.
unfoldable pub state_baseline : String → Database → Dict String
unfolding dump
state_baseline namespace w = dump namespace w.rows

unfoldable pub state_diff : String → Dict String → Database → StateDiff
unfolding state_baseline
state_diff namespace baseline w =
    let now = state_baseline namespace w in
    record {
      added = paths_of (select (λ (e : String × String). not (has_key e.0 baseline)) now);
      modified = paths_of (select (changed_in baseline) now);
      deleted = paths_of (select (λ (e : String × String). not (has_key e.0 now)) baseline);
    }
