-- ===== src/Filesystem/Restore.antt =====
-- What `restore` finds in the backups that a handle has made.
use pherix.Base.{
  ℕ, ◌<◌, ◌≤◌, String, ◌≡◌, refl, ◌∙◌, Bool, false, Option, none, some, [], ◌∷◌, Dict, All, any,
  get, put, get-put, remove, get-remove, arith, ◌==◌, eq_iff, if◌then◌else◌, Bool-cases, inl, inr,
}
use pherix.Errors.{ok}
use pherix.Filesystem.{Disk, Layout, Touch, kept, missing, backup_in}
use pherix.Filesystem.Store.{restore_path, restore_touched}

-- The files by their resolved paths.
abbrev pub View : Type 0
View = String → Option String

abbrev pub view : Disk → View
view w path = get path w.files

-- Every backup is still there, under its name.
pub record Extends (w w' : Disk) : Type 0 where
  pub drawn_le : w.drawn ≤ w'.drawn
  pub same_backup :
      (dir : String) (n : ℕ) → n < w.drawn → backup_in dir n w'.backups ≡ backup_in dir n w.backups

pub Extends-refl : (w : Disk) → Extends w w
Extends-refl w = record { drawn_le = omega arith; same_backup = λ dir n h. refl }

pub Extends-trans : (u v w : Disk) → Extends u v → Extends v w → Extends u w
Extends-trans u v w p q = record {
  drawn_le = omega (arith, p.drawn_le, q.drawn_le);
  same_backup = λ dir n h. q.same_backup dir n (omega (arith, p.drawn_le)) ∙ p.same_backup dir n h;
}

-- A write or a removal of files leaves the backups alone.
pub Extends-files : (w : Disk) (files : Dict String) → Extends w (record w { files = files })
Extends-files w files = record { drawn_le = omega arith; same_backup = λ dir n h. refl }

module _ (l : Layout) where
  -- The record says what the file held in `x`.
  abbrev pub Recorded : String → View → Disk → String × Touch → Type 0
  Recorded dir x w (rel_path, kept n) =
      (n < w.drawn)
      × (content : String) × (backup_in dir n w.backups ≡ some content)
      × (x (l.locate rel_path) ≡ some content)
  Recorded dir x w (rel_path, missing) = x (l.locate rel_path) ≡ none

  abbrev pub is_touched : Dict Touch → String → Bool
  is_touched touched path = any (λ (e : String × Touch). l.locate e.0 == path) touched

  -- What was not touched is as it was.
  abbrev pub AgreeOff : Dict Touch → View → View → Type 0
  AgreeOff touched x y = (path : String) → is_touched touched path ≡ false → y path ≡ x path

  Recorded-Extends :
      (dir : String) (x : View) (w w' : Disk) (e : String × Touch)
      → Extends w w'
      → Recorded dir x w e
      → Recorded dir x w' e
  Recorded-Extends dir x w w' (rel_path, missing) ext h = h
  Recorded-Extends dir x w w' (rel_path, kept n) ext (lt, content, found, was) =
      (omega (arith, ext.drawn_le), content, ext.same_backup dir n lt ∙ found, was)

  pub All-Recorded-Extends :
      (dir : String) (x : View) (w w' : Disk) (touched : Dict Touch)
      → Extends w w'
      → All (Recorded dir x w) touched
      → All (Recorded dir x w') touched
  All-Recorded-Extends dir x w w' [] ext h = tt
  All-Recorded-Extends dir x w w' (e ∷ touched) ext (h, hs) =
      (Recorded-Extends dir x w w' e ext h, All-Recorded-Extends dir x w w' touched ext hs)

  -- One file is as in `x` afterwards, and the others are left alone.
  record Restored (x : View) (path : String) (w w' : Disk) : Type 0 where
    extends_it : Extends w w'
    now : (p : String) → view w' p ≡ (if path == p then x p else view w p)

  restore_path-Restored :
      (dir : String) (x : View) (w : Disk) (rel_path : String) (t : Touch)
      → Recorded dir x w (rel_path, t)
      → (w' : Disk) × (restore_path l dir rel_path t w ≡ (ok tt, w'))
        × Restored x (l.locate rel_path) w w'
  restore_path-Restored dir x w rel_path missing was = (
    record w { files = remove (l.locate rel_path) w.files },
    refl,
    record {
      extends_it = Extends-files w _;
      now = λ p.
          ground (arith, get-remove (l.locate rel_path) p w.files, eq_iff (l.locate rel_path) p);
    },
  )
  restore_path-Restored dir x w rel_path (kept n) (lt, content, found, was) = (
    record w { files = put (l.locate rel_path) content w.files },
    rw found refl,
    record {
      extends_it = Extends-files w _;
      now = λ p.
          ground
            (arith, get-put (l.locate rel_path) p content w.files, eq_iff (l.locate rel_path) p);
    },
  )

  -- The loop of `restore` leads from any files that agree with `x` off the touched paths back to `x`.
  pub restore_touched-view :
      (dir : String) (x : View) (w : Disk) (touched : Dict Touch)
      → All (Recorded dir x w) touched
      → AgreeOff touched x (view w)
      → (w' : Disk) × (restore_touched l dir touched w ≡ (ok tt, w'))
        × Extends w w'
        × ((p : String) → view w' p ≡ x p)
  unfolding restore_touched
  restore_touched-view dir x w [] h agree = (w, refl, Extends-refl w, λ p. agree p refl)
  restore_touched-view dir x w ((rel_path, t) ∷ touched) (h, hs) agree =
      let (u, first, there) = restore_path-Restored dir x w rel_path t h in
      let off : AgreeOff touched x (view u) = λ p rest. elim (Bool-cases (l.locate rel_path == p)) [
        | inl here ↦ there.now p ∙ rw here refl
        | inr other ↦ there.now p ∙ rw other (agree p (rw (other, rest) refl))
      ] in
      let (w', second, ext', done) =
        restore_touched-view dir x u touched
          (All-Recorded-Extends dir x w u touched there.extends_it hs) off in
      (w', rw first second, Extends-trans w u w' there.extends_it ext', done)
