-- ===== src/Filesystem/Handle.antt =====
-- `FsHandle`, bound to an effect and to its adapter, and a tool that uses it.
use pherix.Base.{
  suc, String, Bool, true, false, Option, none, some, List, [], ◌∷◌, ◌++◌, Dict, get, put, remove,
  contains, if◌then◌else◌,
}
use pherix.Values.{Value, Key, text, Version, KeyEntry}
use pherix.Errors.{Result, ok, err, Exec, pure, lift, modify, ◌>>=◌, ◌>>◌, Exc, value_error, raised}
use pherix.Filesystem.{Backup, Disk, Layout, Touch, kept, missing}

pub record Handle : Type 0 where
  pub disk : Disk
  pub backup_dir : String
  pub touched : Dict Touch
  pub read_keys : List KeyEntry
  pub write_keys : List KeyEntry
  pub recorded_reads : List String

-- What a tool does with its handle: it may branch on what a call gives or raises.
pub data Body : Type 0 where
  returns : Value → Body
  raises : Exc → Body
  writes : String → String → (Result (Unit {0}) → Body) → Body
  reads : String → (Result String → Body) → Body
  deletes : String → (Result (Unit {0}) → Body) → Body

abbrev pub has_key {ℓ} : {V : Type ℓ} → String → Dict V → Bool
has_key k d = elim (get k d) [ none ↦ false | some v ↦ true ]

-- `_resolve_versioned` and `read_version`.
unfoldable pub read_version : Layout → Key → Disk → Result Version
read_version l (text rel_path ∷ []) w =
    if l.is_inside rel_path
    then elim (get (l.locate rel_path) w.files) [
      | none ↦ ok (Version.digest "__missing__")
      | some content ↦ ok (Version.digest (l.sha256 content))
    ]
    else err (value_error rel_path)
read_version l _ w = err (value_error "FilesystemAdapter version key must be a 1-tuple")

module _ (l : Layout) where
  -- `_safe_path`
  unfoldable pub safe_path : String → Result String
  safe_path rel_path =
      if l.is_inside rel_path then ok (l.locate rel_path) else err (value_error rel_path)

  abbrev with_touch : String → Touch → Handle → Handle
  with_touch rel_path t s = record s { touched = put rel_path t s.touched }

  -- `shutil.copy2` of the file into the backup directory, under a new name.
  abbrev backed_up : String → String → Handle → Handle
  backed_up rel_path content s =
      let b : Backup = record { dir = s.backup_dir; name = s.disk.drawn; content = content } in
      let disk : Disk = record s.disk { backups = b ∷ s.disk.backups; drawn = suc s.disk.drawn } in
      with_touch rel_path (kept s.disk.drawn) (record s { disk = disk })

  abbrev pub first_touch : String → Option String → Handle → Handle
  first_touch rel_path none s = with_touch rel_path missing s
  first_touch rel_path (some content) s = backed_up rel_path content s

  -- `_record_first_touch`
  unfoldable pub record_first_touch : String → String → Handle → Handle
  record_first_touch rel_path target s =
      if has_key rel_path s.touched then s else first_touch rel_path (get target s.disk.files) s

  abbrev version_of : String → Exec Handle Version
  version_of rel_path s = (read_version l (text rel_path ∷ []) s.disk, s)

  abbrev key_entry : String → Version → KeyEntry
  key_entry rel_path v = record { resource = "fs"; key = text rel_path ∷ []; version = v }

  -- `_record_read_key`
  unfoldable pub record_read_key : String → Exec Handle (Unit {0})
  unfolding read_version
  record_read_key rel_path s =
      if contains rel_path s.recorded_reads
      then (ok tt, s)
      else (do
        v ← version_of rel_path
        modify (λ (s : Handle). record s {
          read_keys = s.read_keys ++ key_entry rel_path v ∷ [];
          recorded_reads = rel_path ∷ s.recorded_reads;
        }))
          s

  -- `_record_write_key`
  unfoldable pub record_write_key : String → Exec Handle (Unit {0})
  unfolding read_version
  record_write_key rel_path = do
    v ← version_of rel_path
    modify (λ (s : Handle). record s { write_keys = s.write_keys ++ key_entry rel_path v ∷ [] })

  abbrev pub set_files : (Dict String → Dict String) → Handle → Handle
  set_files f s = record s { disk = record s.disk { files = f s.disk.files } }

  unfoldable pub write : String → String → Exec Handle (Unit {0})
  unfolding safe_path record_first_touch record_write_key
  write rel_path content = do
    target ← lift (safe_path rel_path)
    modify (record_first_touch rel_path target)
    modify (set_files (put target content))
    record_write_key rel_path

  abbrev pub content_at : String → Exec Handle String
  content_at target s = elim (get target s.disk.files) [
    | none ↦ (err (raised "FileNotFoundError"), s)
    | some content ↦ (ok content, s)
  ]

  unfoldable pub read : String → Exec Handle String
  unfolding safe_path record_read_key
  read rel_path = do
    target ← lift (safe_path rel_path)
    content ← content_at target
    record_read_key rel_path
    pure content

  -- The missing file is recorded as touched, and then is an error.
  unfoldable pub delete : String → Exec Handle (Unit {0})
  unfolding safe_path record_first_touch record_write_key
  delete rel_path = do
    target ← lift (safe_path rel_path)
    modify (record_first_touch rel_path target)
    content_at target
    modify (set_files (remove target))
    record_write_key rel_path

  unfoldable pub run_body : Body → Exec Handle Value
  unfolding write read delete
  run_body (returns v) s = (ok v, s)
  run_body (raises x) s = (err x, s)
  run_body (writes rel_path content next) s =
      let (r, s') = write rel_path content s in run_body (next r) s'
  run_body (reads rel_path next) s = let (r, s') = read rel_path s in run_body (next r) s'
  run_body (deletes rel_path next) s = let (r, s') = delete rel_path s in run_body (next r) s'
