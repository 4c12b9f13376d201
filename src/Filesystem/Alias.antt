-- ===== src/Filesystem/Alias.antt =====
-- `_record_first_touch` keeps the touched paths as the tool spells them, and `restore` goes over
-- them in that order: two spellings of one file.
use pherix.Base.{
  String, ℕ, suc, ◌≡◌, refl, sym, ◌∙◌, true, false, none, some, [], ◌∷◌, Dict, arith, get, put,
  get-put, eq_refl, ◌==◌,
}
use pherix.Values.{Snapshot, null}
use pherix.Effects.{Effect}
use pherix.Errors.{ok}
use pherix.Adapter.{Run}
use pherix.Filesystem.{Disk, Layout, Touch, kept, payload, backup_in}
use pherix.Filesystem.Handle.{
  Handle, Body, returns, writes, run_body, write, record_first_touch, record_write_key,
  read_version, safe_path,
}
use pherix.Filesystem.Store.{snapshot, restore, restore_touched, fs_tool, handle_for, run_on}
use pherix.Filesystem.Restore.{view}
use pherix.Filesystem.Undo.{read_payload-payload, snapshot-Taken}

-- A tool that writes at two paths.
abbrev pub two_writes : String → String → String → String → Body
two_writes p a q b = writes p a (λ _. writes q b (λ _. returns null))

module _ (l : Layout) where
  -- The first write of an existing file at a path that is not touched.
  write_first :
      (p a c : String) (s : Handle)
      → l.is_inside p ≡ true
      → get p s.touched ≡ none
      → get (l.locate p) s.disk.files ≡ some c
      → ((write l p a s).1.disk.files ≡ put (l.locate p) a s.disk.files)
        × ((write l p a s).1.disk.backups
            ≡ record { dir = s.backup_dir; name = s.disk.drawn; content = c } ∷ s.disk.backups)
        × ((write l p a s).1.disk.drawn ≡ suc s.disk.drawn)
        × ((write l p a s).1.touched ≡ put p (kept s.disk.drawn) s.touched)
        × ((write l p a s).1.backup_dir ≡ s.backup_dir)
  unfolding write safe_path record_first_touch record_write_key read_version
  write_first p a c s inside new there =
      (ground arith, ground arith, ground arith, ground arith, ground arith)

  record Twice (p q a c : String) (dir : String) (w : Disk) (ts : Dict Touch) : Type 0 where
    n : ℕ
    touched_is : ts ≡ (p, kept n) ∷ (q, kept (suc n)) ∷ []
    first_backup : backup_in dir n w.backups ≡ some c
    second_backup : backup_in dir (suc n) w.backups ≡ some a

  run_two :
      (p a q b c dir : String) (w : Disk)
      → l.is_inside p ≡ true
      → l.is_inside q ≡ true
      → (p == q) ≡ false
      → l.locate p ≡ l.locate q
      → get (l.locate p) w.files ≡ some c
      → let s = (run_body l (two_writes p a q b) (handle_for l dir [] w)).1 in
        (s.backup_dir ≡ dir) × Twice p q a c dir s.disk s.touched
  unfolding run_body backup_in
  run_two p a q b c dir w in_p in_q apart same there =
      let s = handle_for l dir [] w in
      let s1 = (write l p a s).1 in
      let (files1, backups1, drawn1, touched1, dir1) = write_first p a c s in_p refl there in
      let found : get (l.locate q) s1.disk.files ≡ some a =
        rw (files1, sym same, get-put (l.locate p) (l.locate p) a w.files, eq_refl (l.locate p))
          refl in
      let (files2, backups2, drawn2, touched2, dir2) =
        write_first q b a s1 in_q (rw (touched1, apart) refl) found in
      (
        dir2 ∙ dir1,
        record {
          n = w.drawn;
          touched_is = rw (touched2, touched1, drawn1, apart) refl;
          first_backup = rw (backups2, backups1, dir1, drawn1) (ground (arith, eq_refl dir));
          second_backup = rw (backups2, backups1, dir1, drawn1) (ground (arith, eq_refl dir));
        },
      )

  restore_two :
      (p q a c dir : String) (w : Disk) (ts : Dict Touch)
      → l.locate p ≡ l.locate q
      → Twice p q a c dir w ts
      → (w' : Disk) × (restore_touched l dir ts w ≡ (ok tt, w')) × (view w' (l.locate p) ≡ some a)
  unfolding restore_touched
  restore_two p q a c dir w ts same t =
      let u : Disk = record w { files = put (l.locate p) c w.files } in
      let v : Disk = record u { files = put (l.locate q) a u.files } in
      (
        v,
        rw (t.touched_is, restore_touched, t.first_backup, t.second_backup) refl,
        rw (get-put (l.locate q) (l.locate p) a u.files, sym same, eq_refl (l.locate p)) refl,
      )

  -- After the run the handle restores, and the path then holds `a`.
  abbrev pub RestoresTo : String → String → Run Disk → Type 0
  RestoresTo path a r =
      (h' : Snapshot) × (w' : Disk) × (r.marks.snapshot ≡ some h')
      × (restore l h' r.world ≡ (ok tt, w'))
      × (view w' path ≡ some a)

  run_on-RestoresTo :
      (e : Effect) (p a q b c dir : String) (w : Disk)
      → l.is_inside p ≡ true
      → l.is_inside q ≡ true
      → (p == q) ≡ false
      → l.locate p ≡ l.locate q
      → get (l.locate p) w.files ≡ some c
      → RestoresTo (l.locate p) a (run_on l e (two_writes p a q b) (some (dir, [])) w)
  unfolding restore
  run_on-RestoresTo e p a q b c dir w in_p in_q apart same there =
      let s = (run_body l (two_writes p a q b) (handle_for l dir [] w)).1 in
      let (dir_is, twice) = run_two p a q b c dir w in_p in_q apart same there in
      let (w', back, now) = restore_two p q a c dir s.disk s.touched same twice in
      let h' : Snapshot = record {
        resource = "fs";
        effect_index = e.index;
        payload = payload s.backup_dir s.touched;
      } in
      (h', w', refl, rw (read_payload-payload s.backup_dir s.touched, dir_is, restore) back, now)

  -- A tool that writes one existing file twice, under two spellings of its path that lead to it, is
  -- not undone by `restore`: after the snapshot, the run and the restoration, which succeeds, the
  -- file holds what the tool wrote first.
  pub alias_survives :
      (e : Effect) (h : Snapshot) (w w1 : Disk) (p a q b c : String)
      → l.is_inside p ≡ true
      → l.is_inside q ≡ true
      → (p == q) ≡ false
      → l.locate p ≡ l.locate q
      → get (l.locate p) w.files ≡ some c
      → snapshot l e w ≡ (ok h, w1)
      → RestoresTo
          (l.locate p)
          a
          (fs_tool l (λ _. two_writes p a q b) (record e { snapshot = some h }) w1)
  unfolding fs_tool
  alias_survives e h w w1 p a q b c in_p in_q apart same there taken =
      let t = snapshot-Taken l e w w1 h taken in
      let found : get (l.locate p) w1.files ≡ some c = rw t.same_files there in
      let held : Effect = record e { snapshot = some h } in
      rw (t.payload_is, read_payload-payload t.dir [], fs_tool)
        (run_on-RestoresTo held p a q b c t.dir w1 in_p in_q apart same found)
