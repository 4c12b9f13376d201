-- ===== src/Filesystem/Undo.antt =====
-- `snapshot`, `apply` and `restore` of `FilesystemAdapter` on one effect.
use pherix.Base.{
  String, ◌≡◌, refl, sym, subst, Bool, true, false, some, [], ◌∷◌, Dict, All, arith, contains,
  Option-cases, inl, inr, if◌then◌else◌,
}
use pherix.Values.{Args, Snapshot}
use pherix.Effects.{Effect}
use pherix.Errors.{Result, ok, err, runtime_error, raised}
use pherix.Filesystem.{
  Disk, Layout, Touch, kept, missing, touch_value, touched_value, payload, touch_of, touched_of,
  read_payload,
}
use pherix.Filesystem.Handle.{Body, run_body}
use pherix.Filesystem.Store.{snapshot, restore, fs_tool, handle_for, run_on}
use pherix.Adapter.{Run}
use pherix.Filesystem.Restore.{
  View, view, Extends, Recorded, AgreeOff, All-Recorded-Extends, restore_touched-view,
}
use pherix.Filesystem.Tracks.{IsOneToOne, Tracks, SpellsWell, run_body-Moves}

touch_of-touch_value : (t : Touch) → touch_of (touch_value t) ≡ some t
unfolding touch_of touch_value
touch_of-touch_value (kept n) = refl
touch_of-touch_value missing = refl

touched_of-touched_value : (ts : Dict Touch) → touched_of (touched_value ts) ≡ some ts
unfolding touched_of touched_value
touched_of-touched_value [] = refl
touched_of-touched_value ((rel_path, t) ∷ ts) =
    rw (touch_of-touch_value t, touched_of-touched_value ts, touched_of) refl

-- A payload reads back as the directory and the touched paths that it was made of.
pub read_payload-payload :
    (dir : String) (ts : Dict Touch) → read_payload (payload dir ts) ≡ some (dir, ts)
unfolding read_payload payload
read_payload-payload dir ts = rw (touched_of-touched_value ts, read_payload) refl

module _ (l : Layout) where
  -- The handle leads from files that look like `y` back to `x`.
  pub record Holds (x y : View) (w : Disk) (h : Snapshot) : Type 0 where
    pub dir : String
    pub touched : Dict Touch
    pub reads_back : read_payload h.payload ≡ some (dir, touched)
    pub recorded : All (Recorded l dir x w) touched
    pub off : AgreeOff l touched x y

  pub Holds-Extends :
      (x y : View) (w w' : Disk) (h : Snapshot) → Extends w w' → Holds x y w h → Holds x y w' h
  Holds-Extends x y w w' h ext held = record {
    dir = held.dir;
    touched = held.touched;
    reads_back = held.reads_back;
    recorded = All-Recorded-Extends l held.dir x w w' held.touched ext held.recorded;
    off = held.off;
  }

  pub restore-view :
      (x : View) (w : Disk) (h : Snapshot)
      → Holds x (view w) w h
      → (w' : Disk) × (restore l h w ≡ (ok tt, w'))
        × Extends w w'
        × ((p : String) → view w' p ≡ x p)
  unfolding restore
  restore-view x w h held =
      let (w', back, ext, same) =
        restore_touched-view l held.dir x w held.touched held.recorded held.off in
      (w', rw (held.reads_back, restore) back, ext, same)

  -- What a snapshot leaves.
  pub record Taken (e : Effect) (w w' : Disk) (h : Snapshot) : Type 0 where
    pub dir : String
    pub payload_is : h.payload ≡ payload dir []
    pub extends_it : Extends w w'
    pub same_files : w'.files ≡ w.files

  -- What `snapshot` gives below a root, by whether the directory is there.
  abbrev answered : Effect → Disk → String → Bool → Result Snapshot × Disk
  answered e w root b = if b then (err (raised "FileExistsError"), w) else (
    ok (record {
      resource = "fs";
      effect_index = e.index;
      payload = payload (l.effect_dir root e.index) [];
    }),
    record w { dirs = l.effect_dir root e.index ∷ w.dirs },
  )

  abbrev outside_txn : Disk → Result Snapshot × Disk
  outside_txn w =
      (err (runtime_error "FilesystemAdapter.snapshot() called outside a transaction"), w)

  if-Taken :
      (e : Effect) (w w' : Disk) (h : Snapshot) (root : String) (b : Bool)
      → answered e w root b ≡ (ok h, w')
      → Taken e w w' h
  if-Taken e w w' h root true done = cc
  if-Taken e w w' h root false done =
      let there : Disk = record w { dirs = l.effect_dir root e.index ∷ w.dirs } in
      let same : w' ≡ there = cc in
      record {
        dir = l.effect_dir root e.index;
        payload_is = cc;
        extends_it =
            subst (Extends w) (sym same)
              (record { drawn_le = omega arith; same_backup = λ dir n lt. refl });
        same_files = cc;
      }

  pub snapshot-Taken :
      (e : Effect) (w w' : Disk) (h : Snapshot) → snapshot l e w ≡ (ok h, w') → Taken e w w' h
  unfolding snapshot
  snapshot-Taken e w w' h done = elim (Option-cases w.backup_root) [
    | inl closed ↦ let never : outside_txn w ≡ (ok h, w') = rw (closed, snapshot) at done in cc
    | inr (root, opened) ↦
        if-Taken e w w' h root (contains (l.effect_dir root e.index) w.dirs)
          (rw (opened, snapshot) at done)
  ]

  pub snapshot-Holds :
      (e : Effect) (w w' : Disk) (h : Snapshot) → Taken e w w' h → Holds (view w) (view w') w' h
  snapshot-Holds e w w' h taken = record {
    dir = taken.dir;
    touched = [];
    reads_back = rw taken.payload_is (read_payload-payload taken.dir []);
    recorded = tt;
    off = λ p untouched. rw taken.same_files refl;
  }

module _ (l : Layout) (canonical : String → Bool) (one : IsOneToOne l canonical) where
  -- A run leaves a handle that leads back to the files before it.
  pub record Undoable (x : View) (w : Disk) (r : Run Disk) : Type 0 where
    pub handle : Snapshot
    pub holds_it : r.marks.snapshot ≡ some handle
    pub leads_back : Holds l x (view r.world) r.world handle
    pub extends_it : Extends w r.world

  run_on-Undoable :
      (e : Effect) (b : Body) (x : View) (dir : String) (w : Disk)
      → SpellsWell l canonical one b
      → ((p : String) → view w p ≡ x p)
      → Undoable x w (run_on l e b (some (dir, [])) w)
  run_on-Undoable e b x dir w well same =
      let s = handle_for l dir [] w in
      let start : Tracks l canonical one x s = record {
        spelled = tt;
        recorded = tt;
        off = λ p _. same p;
      } in
      let moved = run_body-Moves l canonical one x b s well start in
      let s' = (run_body l b s).1 in
      record {
        handle = record {
          resource = "fs";
          effect_index = e.index;
          payload = payload s'.backup_dir s'.touched;
        };
        holds_it = refl;
        leads_back = record {
          dir = s'.backup_dir;
          touched = s'.touched;
          reads_back = read_payload-payload s'.backup_dir s'.touched;
          recorded = moved.tracks.recorded;
          off = moved.tracks.off;
        };
        extends_it = moved.extends_it;
      }

  pub fs_tool-Undoable :
      (e : Effect) (body : Args → Body) (x : View) (h : Snapshot) (dir : String) (w : Disk)
      → SpellsWell l canonical one (body e.args)
      → e.snapshot ≡ some h
      → h.payload ≡ payload dir []
      → ((p : String) → view w p ≡ x p)
      → Undoable x w (fs_tool l body e w)
  unfolding fs_tool
  fs_tool-Undoable e body x h dir w well with_h empty same =
      rw (with_h, empty, read_payload-payload dir [], fs_tool)
        (run_on-Undoable e (body e.args) x dir w well same)

  -- A tool spells its paths canonically. After a snapshot and a run of it on the snapshot's handle,
  -- which may write, read and delete, and return or raise, restoring the handle that the effect then
  -- holds succeeds, and every file is as it was before the snapshot.
  pub restore_undoes :
      (e : Effect) (body : Args → Body) (h : Snapshot) (w w1 : Disk)
      → SpellsWell l canonical one (body e.args)
      → snapshot l e w ≡ (ok h, w1)
      → (h' : Snapshot) × (w' : Disk) × ((fs_tool l body
            (record e { snapshot = some h })
            w1).marks.snapshot
          ≡ some h')
        × (restore l h' (fs_tool l body (record e { snapshot = some h }) w1).world ≡ (ok tt, w'))
        × ((p : String) → view w' p ≡ view w p)
  restore_undoes e body h w w1 well taken =
      let t = snapshot-Taken l e w w1 h taken in
      let undo =
        fs_tool-Undoable (record e { snapshot = some h }) body (view w) h t.dir w1 well refl
          t.payload_is (λ p. rw t.same_files refl) in
      let (w', back, _, same) = restore-view l (view w) _ undo.handle undo.leads_back in
      (undo.handle, w', undo.holds_it, back, same)
