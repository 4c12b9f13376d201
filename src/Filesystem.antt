-- ===== src/Filesystem.antt =====
-- pherix/core/adapters/filesystem.py: the handle that a tool writes through, and the adapter that
-- restores what it wrote. The files are a map from resolved paths to contents; directories, modes
-- and the errors of a full disk are left out. A backup's random name is the number of its draw.
pub mod Handle
pub mod Store
pub mod Restore
pub mod Tracks
pub mod Undo
pub mod Alias
pub mod Promise
use pherix.Base.{
  ℕ, suc, ◌==ℕ◌, ℤ, pos, String, Bool, true, false, not, ◌&&◌, Option, none, some, List, [], ◌∷◌,
  ◌++◌, Dict, get, put, remove, contains, ◌==◌, if◌then◌else◌,
}
use pherix.Values.{
  Value, Elements, Entries, null, bool, int, str, dict, no_entry, entry, Key, KeyPart, Version,
  KeyEntry, Snapshot,
}
use pherix.Effects.{Effect}
use pherix.Errors.{
  Result, ok, err, and_then, Exec, pure, raise, lift, gets, modify, skip, ◌>>=◌, ◌>>◌, Exc,
  value_error, runtime_error, raised,
}
use pherix.Adapter.{Adapter, Marks, Run, ToolFn}

-- A file of the backup directories.
pub record Backup : Type 0 where
  pub dir : String
  pub name : ℕ
  pub content : String

-- The files under the root, and what the adapter keeps in its temporary directory.
pub record Disk : Type 0 where
  pub files : Dict String
  pub backup_root : Option String
  pub dirs : List String
  pub backups : List Backup
  -- how many random names have been drawn
  pub drawn : ℕ

-- What pathlib, tempfile and hashlib give: the file that a path below the root leads to, whether it
-- is relative and stays inside the root, the name of the n-th temporary directory, the directory of
-- an effect in it, and sha256.
pub record Layout : Type 0 where
  pub locate : String → String
  pub is_inside : String → Bool
  pub temp_dir : ℕ → String
  pub effect_dir : String → ℤ → String
  pub sha256 : String → String

-- `touched[rel_path]`: the name of the backup, or that there was no file.
pub data Touch : Type 0 where
  kept : ℕ → Touch
  missing : Touch

-- The payload of a snapshot.
unfoldable pub touch_value : Touch → Value
touch_value (kept n) = dict (entry "backup" (int (pos n)) (entry "existed" (bool true) no_entry))
touch_value missing = dict (entry "backup" null (entry "existed" (bool false) no_entry))

unfoldable pub touched_value : Dict Touch → Entries
unfolding touch_value
touched_value [] = no_entry
touched_value ((rel_path, t) ∷ ts) = entry rel_path (touch_value t) (touched_value ts)

unfoldable pub payload : String → Dict Touch → Value
unfolding touched_value
payload dir touched =
    dict (entry "backup_dir" (str dir) (entry "touched" (dict (touched_value touched)) no_entry))

unfoldable pub touch_of : Value → Option Touch
touch_of (dict (entry _ (int (pos n)) (entry _ (bool true) no_entry))) = some (kept n)
touch_of (dict (entry _ null (entry _ (bool false) no_entry))) = some missing
touch_of _ = none

unfoldable pub touched_of : Entries → Option (Dict Touch)
unfolding touch_of
touched_of no_entry = some []
touched_of (entry rel_path v vs) = elim (touch_of v) [
  | none ↦ none
  | some t ↦ elim (touched_of vs) [ none ↦ none | some ts ↦ some ((rel_path, t) ∷ ts) ]
]

-- `handle.payload["backup_dir"]` and `handle.payload["touched"]`
unfoldable pub read_payload : Value → Option (String × Dict Touch)
unfolding touched_of
read_payload (dict (entry _ (str dir) (entry _ (dict ts) no_entry))) = elim (touched_of ts) [
  | none ↦ none
  | some touched ↦ some (dir, touched)
]
read_payload _ = none

unfoldable pub backup_in : String → ℕ → List Backup → Option String
backup_in dir name [] = none
backup_in dir name (b ∷ bs) =
    if b.dir == dir && b.name ==ℕ name then some b.content else backup_in dir name bs
