-- ===== src/Filesystem/Store.antt =====
-- `FilesystemAdapter`: the bracket of a transaction, snapshots, and their restoration.
use pherix.Base.{
  ℕ, suc, String, Bool, true, false, Option, none, some, List, [], ◌∷◌, ◌==◌, not, Dict, get, put,
  remove, contains, select, if◌then◌else◌,
}
use pherix.Values.{Value, Args, Snapshot}
use pherix.Effects.{Effect}
use pherix.Errors.{Result, ok, err, Exec, raise, skip, ◌>>◌, runtime_error, raised}
use pherix.Adapter.{Adapter, Run, ToolFn}
use pherix.Filesystem.{Disk, Layout, Touch, kept, missing, payload, read_payload, backup_in}
use pherix.Filesystem.Handle.{Handle, Body, read_version, run_body, has_key}

module _ (l : Layout) where
  unfoldable pub begin_txn : Exec Disk (Unit {0})
  begin_txn w = (ok tt, record w { backup_root = some (l.temp_dir w.drawn); drawn = suc w.drawn })

  -- `_cleanup_backup_root`; one root is open at a time.
  unfoldable pub cleanup_backup_root : Exec Disk (Unit {0})
  cleanup_backup_root w = elim w.backup_root [
    | none ↦ (ok tt, w)
    | some root ↦ (ok tt, record w { backup_root = none; dirs = []; backups = [] })
  ]

  unfoldable pub snapshot : Effect → Exec Disk Snapshot
  snapshot e w = elim w.backup_root [
    | none ↦ (err (runtime_error "FilesystemAdapter.snapshot() called outside a transaction"), w)
    | some root ↦
        let dir = l.effect_dir root e.index in
        if contains dir w.dirs then (err (raised "FileExistsError"), w) else (
          ok (record { resource = "fs"; effect_index = e.index; payload = payload dir [] }),
          record w { dirs = dir ∷ w.dirs },
        )
  ]

  -- One turn of the loop of `restore`.
  abbrev copied_back : String → Option String → Exec Disk (Unit {0})
  copied_back target none w = (err (raised "FileNotFoundError"), w)
  copied_back target (some content) w = (ok tt, record w { files = put target content w.files })

  abbrev pub restore_path : String → String → Touch → Exec Disk (Unit {0})
  restore_path dir rel_path (kept name) w =
      copied_back (l.locate rel_path) (backup_in dir name w.backups) w
  restore_path dir rel_path missing w =
      (ok tt, record w { files = remove (l.locate rel_path) w.files })

  unfoldable pub restore_touched : String → Dict Touch → Exec Disk (Unit {0})
  unfolding backup_in
  restore_touched dir [] = skip
  restore_touched dir ((rel_path, t) ∷ touched) =
      restore_path dir rel_path t >> restore_touched dir touched

  unfoldable pub restore : Snapshot → Exec Disk (Unit {0})
  unfolding restore_touched read_payload
  restore handle = elim (read_payload handle.payload) [
    | none ↦ raise (raised "KeyError")
    | some (dir, touched) ↦ restore_touched dir touched
  ]

  -- `_handle_for`
  abbrev pub handle_for : String → Dict Touch → Disk → Handle
  handle_for dir touched w = record {
    disk = w;
    backup_dir = dir;
    touched = touched;
    read_keys = [];
    write_keys = [];
    recorded_reads = [];
  }

  abbrev pub finished_run : Effect → Result Value → Handle → Run Disk
  finished_run e r s = record {
    result = r;
    marks = record {
      read_keys = s.read_keys;
      write_keys = s.write_keys;
      snapshot = some (record {
        resource = "fs";
        effect_index = e.index;
        payload = payload s.backup_dir s.touched;
      });
    };
    world = s.disk;
  }

  abbrev no_run : Disk → Run Disk
  no_run w = record {
    result = err (raised "AttributeError");
    marks = record { read_keys = []; write_keys = []; snapshot = none };
    world = w;
  }

  abbrev pub run_on : Effect → Body → Option (String × Dict Touch) → Disk → Run Disk
  run_on e body none w = no_run w
  run_on e body (some (dir, touched)) w =
      let (r, s) = run_body l body (handle_for dir touched w) in finished_run e r s

  abbrev pub held_payload : Effect → Option (String × Dict Touch)
  held_payload e = elim e.snapshot [ none ↦ none | some h ↦ read_payload h.payload ]

  -- A tool as `apply` calls it: `tool_fn(handle, **effect.args)`.
  unfoldable pub fs_tool : (Args → Body) → ToolFn Disk
  unfolding run_body read_payload
  fs_tool body e w = run_on e (body e.args) (held_payload e) w

  unfoldable pub fs_adapter : ℕ → Adapter Disk
  unfolding begin_txn cleanup_backup_root snapshot restore
  fs_adapter ident = record {
    ident = ident;
    name = "fs";
    supports_rollback = true;
    snapshot = snapshot;
    apply = λ e f w. f e w;
    restore = restore;
    transactional = true;
    begin_txn = begin_txn;
    commit_txn = cleanup_backup_root;
    rollback_txn = cleanup_backup_root;
    read_version = read_version l;
    reads_committed_only = none;
    conn = none;
  }

  -- `_walk_hashes`
  abbrev pub walk_hashes : Dict String → Dict String
  walk_hashes [] = []
  walk_hashes ((path, content) ∷ files) = (path, l.sha256 content) ∷ walk_hashes files

  unfoldable pub state_baseline : Disk → Dict String
  state_baseline w = walk_hashes w.files

-- `state_diff`: the paths added, modified and deleted since the baseline.
pub record StateDiff : Type 0 where
  pub added : List String
  pub modified : List String
  pub deleted : List String

abbrev pub changed_in : Dict String → String × String → Bool
changed_in baseline (path, digest) = elim (get path baseline) [
  | none ↦ false
  | some before ↦ not (before == digest)
]

abbrev pub paths_of : Dict String → List String
paths_of [] = []
paths_of ((path, digest) ∷ d) = path ∷ paths_of d

unfoldable pub state_diff : Layout → Dict String → Disk → StateDiff
unfolding state_baseline
state_diff l baseline w =
    let now = state_baseline l w in
    record {
      added = paths_of (select (λ (e : String × String). not (has_key e.0 baseline)) now);
      modified = paths_of (select (changed_in baseline) now);
      deleted = paths_of (select (λ (e : String × String). not (has_key e.0 now)) baseline);
    }
