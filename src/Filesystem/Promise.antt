-- ===== src/Filesystem/Promise.antt =====
-- `FilesystemAdapter` as an adapter of a transaction.
use pherix.Base.{
  ℕ, eq_iff, String, ◌≡◌, refl, subst, ◌∙◌, Bool, none, some, [], ◌∷◌, ◌==◌, Dict, get, arith,
  Bool-cases, Option-cases, inl, inr,
}
use pherix.Values.{Args, Snapshot}
use pherix.Effects.{Effect}
use pherix.Errors.{Result, ok, err, Exc}
use pherix.Adapter.{Adapter, ToolSpec}
use pherix.Filesystem.{Disk, Layout, payload}
use pherix.Filesystem.Handle.{Body}
use pherix.Filesystem.Store.{begin_txn, cleanup_backup_root, snapshot, restore, fs_tool, fs_adapter}
use pherix.Filesystem.Restore.{View, view, Extends, Extends-refl, Extends-trans}
use pherix.Filesystem.Tracks.{IsOneToOne, SpellsWell}
use pherix.Filesystem.Undo.{Holds, Holds-Extends, restore-view, snapshot-Taken, fs_tool-Undoable}
use pherix.Runtime.State.{Env}
use pherix.Runtime.Record.{marked}
use pherix.Runtime.Restore.{Contract, Snapped, Ran, Honours}

module _ (l : Layout) where
  abbrev pub Looks : View → Disk → Type 0
  Looks x w = (p : String) → view w p ≡ x p

  abbrev pub IsEmpty : Snapshot → Type 0
  IsEmpty h = (dir : String) × (h.payload ≡ payload dir [])

  abbrev pub fs_contract : Contract Disk View
  fs_contract = record {
    At = Looks;
    Holds = λ r x y w h. Holds l x y w h;
    Fresh = λ r x w h. IsEmpty h;
    Grows = Extends;
    Grows-refl = Extends-refl;
    Grows-trans = Extends-trans;
    Holds-Grows = λ r x y w w' h. Holds-Extends l x y w w' h;
  }

  -- A refused snapshot changes nothing.
  snapshot-err : (e : Effect) (w w' : Disk) (x : Exc) → snapshot l e w ≡ (err x, w') → w' ≡ w
  unfolding snapshot
  snapshot-err e w w' x h = ground arith

  Snapped-fs :
      (q : String) (e : Effect) (x : View) (w : Disk)
      → Looks x w
      → Snapped fs_contract q x w (snapshot l e w)
  Snapped-fs q e x w here = go (snapshot l e w) refl
    where
      go : (r : Result Snapshot × Disk) → snapshot l e w ≡ r → Snapped fs_contract q x w r
      go (ok h, w') done =
          let t = snapshot-Taken l e w w' h done in
          ((λ p. rw t.same_files (here p)), t.extends_it, (t.dir, t.payload_is))
      go (err y, w') done =
          let same = snapshot-err e w w' y done in (rw same here, rw same (Extends-refl w))

  restore-fs :
      (x y : View) (w : Disk) (h : Snapshot)
      → Holds l x y w h
      → Looks y w
      → (w' : Disk) × (restore l h w ≡ (ok tt, w')) × Looks x w' × Extends w w'
  restore-fs x y w h held here =
      let at_w : Holds l x (view w) w h = record {
        dir = held.dir;
        touched = held.touched;
        reads_back = held.reads_back;
        recorded = held.recorded;
        off = λ p untouched. here p ∙ held.off p untouched;
      } in
      let (w', back, ext, same) = restore-view l x w h at_w in (w', back, same, ext)

  begin-fs :
      (x : View) (w : Disk) → Looks x w → (w' : Disk) × (begin_txn l w ≡ (ok tt, w')) × Looks x w'
  unfolding begin_txn
  begin-fs x w here = (_, refl, here)

  cleanup-fs :
      (x : View) (w : Disk)
      → Looks x w
      → (w' : Disk) × (cleanup_backup_root l w ≡ (ok tt, w')) × Looks x w'
  unfolding cleanup_backup_root
  cleanup-fs x w here = elim (Option-cases w.backup_root) [
    | inl none_open ↦ (w, rw none_open refl, here)
    | inr (root, opened) ↦
        (record w { backup_root = none; dirs = []; backups = [] }, rw opened refl, here)
  ]

pub get-one :
    {A : Type 0} (k j : String) (a b : A) → get k ((j, a) ∷ []) ≡ some b → (a ≡ b) × (j ≡ k)
get-one k j a b h = elim (Bool-cases (j == k)) [
  | inl same ↦ let held : some a ≡ some b = rw same at h in (cc, (eq_iff j k).0 same)
  | inr other ↦ let never : none ≡ some b = rw other at h in cc
]

-- Each registered tool works on the handle of the adapter and spells its paths canonically.
abbrev pub IsFsRegistry :
    (l : Layout) (canonical : String → Bool)
    → IsOneToOne l canonical
    → Dict (ToolSpec Disk)
    → Type 0
IsFsRegistry l canonical one registry =
    (name : String) (spec : ToolSpec Disk)
    → get name registry ≡ some spec
    → (body : Args → Body) × (spec.fn ≡ fs_tool l body)
      × ((args : Args) → SpellsWell l canonical one (body args))

module _ (l : Layout) (canonical : String → Bool) (one : IsOneToOne l canonical) where
  Ran-fs :
      (r : String) (body : Args → Body) (e : Effect) (h : Snapshot) (x : View) (w : Disk)
      → ((args : Args) → SpellsWell l canonical one (body args))
      → e.snapshot ≡ some h
      → IsEmpty l h
      → Looks l x w
      → Ran (fs_contract l) r x e w (fs_tool l body e w)
  Ran-fs r body e h x w well with_h (dir, empty) here =
      let undo =
        fs_tool-Undoable l canonical one e body x h dir w (well e.args) with_h empty here in
      record {
        after = view (fs_tool l body e w).world;
        at_after = λ p. refl;
        grows = undo.extends_it;
        handle = undo.handle;
        handle_is = rw (marked, undo.holds_it) refl;
        leads_back = undo.leads_back;
      }

  -- A transaction whose one resource is the filesystem keeps the contract of its adapters.
  pub fs-Honours :
      (start : View) (env : Env Disk) (ident : ℕ)
      → env.adapters ≡ ("fs", fs_adapter l ident) ∷ []
      → IsFsRegistry l canonical one env.registry
      → Honours (fs_contract l) start env
  unfolding fs_adapter
  fs-Honours start env ident with_fs tools = record {
    snapshot = λ r a e x w found supported here.
        let (same, is_fs) = get-one r "fs" (fs_adapter l ident) a (rw with_fs at found) in
        subst (λ (b : Adapter Disk). Snapped (fs_contract l) r x w (b.snapshot e w)) same
          (Snapped-fs l r e x w here);
    run = λ name spec a e h x w registered found with_h fresh here.
        let (same, is_fs) =
          get-one spec.resource "fs" (fs_adapter l ident) a (rw with_fs at found) in
        let (body, fn_is, well) = tools name spec registered in
        subst (λ (b : Adapter Disk). Ran (fs_contract l) spec.resource x e w (b.apply e spec.fn w))
          same (rw fn_is (Ran-fs spec.resource body e h x w well with_h fresh here));
    restore = λ r a x y w h found held here.
        let (same, is_fs) = get-one r "fs" (fs_adapter l ident) a (rw with_fs at found) in
        subst
          (λ (b : Adapter Disk).
            (w' : Disk) × (b.restore h w ≡ (ok tt, w')) × Looks l x w' × Extends w w')
          same (restore-fs l x y w h held here);
    begins = rw with_fs ((λ w here. begin-fs l start w here), tt);
    rolls_back = rw with_fs ((λ w here. cleanup-fs l start w here), tt);
  }
