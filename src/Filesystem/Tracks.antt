-- ===== src/Filesystem/Tracks.antt =====
-- What a handle records while a tool runs: enough to restore the files that it found. The tool
-- spells its paths canonically, so that no two spellings lead to one file.
use pherix.Base.{
  suc, String, ◌≡◌, refl, sym, ◌∙◌, Bool, true, false, ◌||◌, Option, none, some, [], ◌∷◌, Dict, All,
  get, put, get-put, remove, get-remove, arith, ◌==◌, eq_iff, eq_refl, if◌then◌else◌, Bool-cases,
  Option-cases, inl, inr, ==ℕ_self,
}
use pherix.Errors.{Result, ok, err, Exec, ◌>>=◌, continue, lift}
use pherix.Filesystem.{Disk, Layout, Touch, kept, missing, backup_in}
use pherix.Filesystem.Handle.{
  Handle, Body, returns, raises, writes, reads, deletes, has_key, safe_path, first_touch,
  record_first_touch, write, read, delete, run_body, record_read_key, record_write_key, set_files,
  content_at,
}
use pherix.Filesystem.Restore.{
  View, view, Extends, Extends-refl, Extends-trans, Extends-files, Recorded, is_touched, AgreeOff,
  All-Recorded-Extends,
}

module _ (l : Layout) where
  is_touched-put :
      (k : String) (t : Touch) (d : Dict Touch) (p : String)
      → is_touched l (put k t d) p ≡ (is_touched l d p || l.locate k == p)
  is_touched-put k t [] p = ground arith
  is_touched-put k t ((j, u) ∷ d) p = ground (arith, eq_iff j k, is_touched-put k t d p)

  has_key-is_touched :
      (k : String) (d : Dict Touch) → has_key k d ≡ true → is_touched l d (l.locate k) ≡ true
  has_key-is_touched k [] h = cc
  has_key-is_touched k ((j, u) ∷ d) h = elim (Bool-cases (j == k)) [
    | inl here ↦ let same : j ≡ k = (eq_iff j k).0 here in rw (same, eq_refl (l.locate k)) refl
    | inr other ↦
        let rest : has_key k d ≡ true = rw (other, has_key) at h in
        rw (has_key-is_touched k d rest) (ground arith)
  ]

  All-put :
      (P : String × Touch → Type 0) (k : String) (t : Touch) (d : Dict Touch)
      → has_key k d ≡ false
      → All P d
      → P (k, t)
      → All P (put k t d)
  All-put P k t [] fresh h p = (p, tt)
  All-put P k t ((j, u) ∷ d) fresh (h, hs) p = elim (Bool-cases (j == k)) [
    | inl here ↦ let never : true ≡ false = rw (here, has_key) at fresh in cc
    | inr other ↦ rw other (h, All-put P k t d (rw (other, has_key) at fresh) hs p)
  ]

abbrev pub IsOneToOne : Layout → (String → Bool) → Type 0
IsOneToOne l canonical =
    (p q : String) → canonical p ≡ true → canonical q ≡ true → l.locate p ≡ l.locate q → p ≡ q

module _ (l : Layout) (canonical : String → Bool) (one : IsOneToOne l canonical) where
  abbrev AllCanonical : Dict Touch → Type 0
  AllCanonical = All (λ (e : String × Touch). canonical e.0 ≡ true)

  fresh-untouched :
      (k : String) (d : Dict Touch)
      → canonical k ≡ true
      → AllCanonical d
      → has_key k d ≡ false
      → is_touched l d (l.locate k) ≡ false
  fresh-untouched k [] c cs fresh = refl
  fresh-untouched k ((j, u) ∷ d) c (cj, cs) fresh = elim (Bool-cases (j == k)) [
    | inl here ↦ let never : true ≡ false = rw (here, has_key) at fresh in cc
    | inr other ↦ elim (Bool-cases (l.locate j == l.locate k)) [
      | inl met ↦
          let same = one j k cj c ((eq_iff (l.locate j) (l.locate k)).0 met) in
          let never : true ≡ false = sym ((eq_iff j k).1 same) ∙ other in cc
      | inr apart ↦ rw (apart, fresh-untouched k d c cs (rw (other, has_key) at fresh)) refl
    ]
  ]

  -- The files were `x` when the effect began.
  pub record Tracks (x : View) (s : Handle) : Type 0 where
    pub spelled : AllCanonical s.touched
    pub recorded : All (Recorded l s.backup_dir x s.disk) s.touched
    pub off : AgreeOff l s.touched x (view s.disk)

  -- What one call of the handle keeps.
  pub record Moves (x : View) (s s' : Handle) : Type 0 where
    pub tracks : Tracks x s'
    pub extends_it : Extends s.disk s'.disk
    pub same_dir : s'.backup_dir ≡ s.backup_dir

  Moves-refl : (x : View) (s : Handle) → Tracks x s → Moves x s s
  Moves-refl x s t = record { tracks = t; extends_it = Extends-refl s.disk; same_dir = refl }

  Moves-trans : (x : View) (s t u : Handle) → Moves x s t → Moves x t u → Moves x s u
  Moves-trans x s t u p q = record {
    tracks = q.tracks;
    extends_it = Extends-trans s.disk t.disk u.disk p.extends_it q.extends_it;
    same_dir = q.same_dir ∙ p.same_dir;
  }

  Tracks-touch :
      (x : View) (k : String) (t : Touch) (s : Handle) (w : Disk)
      → canonical k ≡ true
      → has_key k s.touched ≡ false
      → Tracks x s
      → Extends s.disk w
      → w.files ≡ s.disk.files
      → Recorded l s.backup_dir x w (k, t)
      → Moves x s (record s { disk = w; touched = put k t s.touched })
  Tracks-touch x k t s w c fresh tracked ext same r = record {
    tracks = record {
      spelled = All-put l (λ e. canonical e.0 ≡ true) k t s.touched fresh tracked.spelled c;
      recorded =
          All-put l (Recorded l s.backup_dir x w) k t s.touched fresh
            (All-Recorded-Extends l s.backup_dir x s.disk w s.touched ext tracked.recorded) r;
      off = λ p h.
          let parts : is_touched l s.touched p ≡ false =
            ground (arith, is_touched-put l k t s.touched p) in
          rw same (tracked.off p parts);
    };
    extends_it = ext;
    same_dir = refl;
  }

  -- The files are as they were, and the path is a touched one.
  record Touches (x : View) (k : String) (s s' : Handle) : Type 0 where
    moves : Moves x s s'
    touches : is_touched l s'.touched (l.locate k) ≡ true
    same_files : s'.disk.files ≡ s.disk.files

  is_touched-new :
      (k : String) (t : Touch) (d : Dict Touch) → is_touched l (put k t d) (l.locate k) ≡ true
  is_touched-new k t d =
      rw (is_touched-put l k t d (l.locate k), eq_refl (l.locate k)) (ground arith)

  Extends-backup :
      (w : Disk) (dir content : String)
      → Extends w (record w {
        backups = record { dir = dir; name = w.drawn; content = content } ∷ w.backups;
        drawn = suc w.drawn;
      })
  unfolding backup_in
  Extends-backup w dir content = record {
    drawn_le = omega arith;
    same_backup = λ d n lt. ground arith;
  }

  first_touch-Touches :
      (x : View) (k : String) (o : Option String) (s : Handle)
      → canonical k ≡ true
      → has_key k s.touched ≡ false
      → x (l.locate k) ≡ o
      → Tracks x s
      → Touches x k s (first_touch l k o s)
  unfolding backup_in
  first_touch-Touches x k none s c fresh was tracked = record {
    moves = Tracks-touch x k missing s s.disk c fresh tracked (Extends-refl s.disk) refl was;
    touches = is_touched-new k missing s.touched;
    same_files = refl;
  }
  first_touch-Touches x k (some content) s c fresh was tracked = record {
    moves =
        Tracks-touch x k (kept s.disk.drawn) s _ c fresh tracked
          (Extends-backup s.disk s.backup_dir content) refl
          (omega arith, content, rw (eq_refl s.backup_dir, ==ℕ_self s.disk.drawn) refl, was);
    touches = is_touched-new k (kept s.disk.drawn) s.touched;
    same_files = refl;
  }

  if-Touches :
      (x : View) (k : String) (b : Bool) (s t : Handle)
      → (b ≡ true → Touches x k s s)
      → (b ≡ false → Touches x k s t)
      → Touches x k s (if b then s else t)
  if-Touches x k true s t old new = old refl
  if-Touches x k false s t old new = new refl

  record_first_touch-Touches :
      (x : View) (k : String) (s : Handle)
      → canonical k ≡ true
      → Tracks x s
      → Touches x k s (record_first_touch l k (l.locate k) s)
  unfolding record_first_touch
  record_first_touch-Touches x k s c tracked =
      if-Touches x k (has_key k s.touched) s (first_touch l k (get (l.locate k) s.disk.files) s)
        (λ old. record {
          moves = Moves-refl x s tracked;
          touches = has_key-is_touched l k s.touched old;
          same_files = refl;
        })
        (λ new.
          first_touch-Touches x k (get (l.locate k) s.disk.files) s c new
            (sym (tracked.off (l.locate k) (fresh-untouched k s.touched c tracked.spelled new)))
            tracked)

  -- Changing the file of a touched path.
  set_files-Moves :
      (x : View) (k : String) (f : Dict String → Dict String) (s : Handle)
      → ((p : String) (d : Dict String) → (k == p) ≡ false → get p (f d) ≡ get p d)
      → is_touched l s.touched k ≡ true
      → Tracks x s
      → Moves x s (set_files l f s)
  set_files-Moves x k f s only touched tracked =
      let w : Disk = record s.disk { files = f s.disk.files } in
      record {
        tracks = record {
          spelled = tracked.spelled;
          recorded =
              All-Recorded-Extends l s.backup_dir x s.disk w s.touched
                (Extends-files s.disk w.files) tracked.recorded;
          off = λ p h. elim (Bool-cases (k == p)) [
            | inl here ↦
                let same : k ≡ p = (eq_iff k p).0 here in
                let hit : is_touched l s.touched p ≡ true = rw same at touched in
                let never : true ≡ false = sym hit ∙ h in cc
            | inr other ↦ only p s.disk.files other ∙ tracked.off p h
          ];
        };
        extends_it = Extends-files s.disk w.files;
        same_dir = refl;
      }

  Moves-same :
      (x : View) (s s' : Handle)
      → s'.disk ≡ s.disk
      → s'.touched ≡ s.touched
      → s'.backup_dir ≡ s.backup_dir
      → Tracks x s
      → Moves x s s'
  Moves-same x s s' disk touched dir tracked = record {
    tracks = record {
      spelled = rw touched tracked.spelled;
      recorded = rw (disk, touched, dir) tracked.recorded;
      off = rw (disk, touched) tracked.off;
    };
    extends_it = rw disk (Extends-refl s.disk);
    same_dir = dir;
  }

  write_key-Moves :
      (x : View) (k : String) (s : Handle) → Tracks x s → Moves x s (record_write_key l k s).1
  unfolding record_write_key
  write_key-Moves x k s tracked =
      Moves-same x s _ (ground arith) (ground arith) (ground arith) tracked

  read_key-Moves :
      (x : View) (k : String) (s : Handle) → Tracks x s → Moves x s (record_read_key l k s).1
  unfolding record_read_key
  read_key-Moves x k s tracked =
      Moves-same x s _ (ground arith) (ground arith) (ground arith) tracked

  Moves-bind :
      {A B : Type 0} (x : View) (m : Exec Handle A) (f : A → Exec Handle B) (s : Handle)
      → Moves x s (m s).1
      → ((a : A) → (m s).0 ≡ ok a → Moves x (m s).1 (f a (m s).1).1)
      → Moves x s ((m >>= f) s).1
  Moves-bind {A} {B} x m f s first rest = after (m s).0 refl
    where
      after : (r : Result A) → (m s).0 ≡ r → Moves x s (continue r f (m s).1).1
      after (ok a) e = Moves-trans x s (m s).1 _ first (rest a e)
      after (err y) e = first

  -- A call starts by resolving its path.
  located-Moves :
      {A : Type 0} (x : View) (k : String) (f : String → Exec Handle A) (s : Handle)
      → Tracks x s
      → Moves x s (f (l.locate k) s).1
      → Moves x s ((lift (safe_path l k) >>= f) s).1
  unfolding safe_path
  located-Moves x k f s tracked there = elim (Bool-cases (l.is_inside k)) [
    | inr outside ↦ rw (outside, safe_path) (Moves-refl x s tracked)
    | inl inside ↦ rw (inside, safe_path) there
  ]

  write-Moves :
      (x : View) (k content : String) (s : Handle)
      → canonical k ≡ true
      → Tracks x s
      → Moves x s (write l k content s).1
  unfolding write
  write-Moves x k content s c tracked =
      let t = record_first_touch l k (l.locate k) s in
      let first = record_first_touch-Touches x k s c tracked in
      let second =
        set_files-Moves x (l.locate k) (put (l.locate k) content) t
          (λ p d other. rw (get-put (l.locate k) p content d, other) refl) first.touches
          first.moves.tracks in
      let u = set_files l (put (l.locate k) content) t in
      let third = write_key-Moves x k u second.tracks in
      located-Moves x k _ s tracked
        (Moves-trans x s t _ first.moves (Moves-trans x t u _ second third))

  content_at-state : (target : String) (s : Handle) → (content_at l target s).1 ≡ s
  content_at-state target s = elim (Option-cases (get target s.disk.files)) [
    | inl absent ↦ rw (absent, content_at) refl
    | inr (content, found) ↦ rw (found, content_at) refl
  ]

  content-Moves :
      (x : View) (target : String) (s : Handle) → Tracks x s → Moves x s (content_at l target s).1
  content-Moves x target s tracked =
      Moves-same x s _ (ground arith) (ground arith) (ground arith) tracked

  read-Moves : (x : View) (k : String) (s : Handle) → Tracks x s → Moves x s (read l k s).1
  unfolding read
  read-Moves x k s tracked =
      let here = content-Moves x (l.locate k) s tracked in
      located-Moves x k _ s tracked (
        Moves-bind x (content_at l (l.locate k)) _ s here λ content _.
          Moves-bind x (record_read_key l k) _ (content_at l (l.locate k) s).1
            (read_key-Moves x k _ here.tracks)
            λ _ _. Moves-refl x _ (read_key-Moves x k _ here.tracks).tracks)

  delete-Moves :
      (x : View) (k : String) (s : Handle)
      → canonical k ≡ true
      → Tracks x s
      → Moves x s (delete l k s).1
  unfolding delete
  delete-Moves x k s c tracked =
      let t = record_first_touch l k (l.locate k) s in
      let first = record_first_touch-Touches x k s c tracked in
      let here = content-Moves x (l.locate k) t first.moves.tracks in
      let second =
        set_files-Moves x (l.locate k) (remove (l.locate k)) t
          (λ p d other. rw (get-remove (l.locate k) p d, other) refl) first.touches
          first.moves.tracks in
      let u = set_files l (remove (l.locate k)) t in
      located-Moves x k _ s tracked (
        Moves-trans x s t _ first.moves (
          Moves-bind x (content_at l (l.locate k)) _ t here λ content _.
            rw (content_at-state (l.locate k) t)
              (Moves-trans x t u _ second (write_key-Moves x k u second.tracks))))

  -- The paths of the calls that a tool may make are spelled canonically.
  abbrev pub SpellsWell : Body → Type 0
  SpellsWell (returns v) = Unit
  SpellsWell (raises x) = Unit
  SpellsWell (writes k content next) =
      (canonical k ≡ true) × ((r : Result (Unit {0})) → SpellsWell (next r))
  SpellsWell (reads k next) = (r : Result String) → SpellsWell (next r)
  SpellsWell (deletes k next) =
      (canonical k ≡ true) × ((r : Result (Unit {0})) → SpellsWell (next r))

  pub run_body-Moves :
      (x : View) (b : Body) (s : Handle) → SpellsWell b → Tracks x s → Moves x s (run_body l b s).1
  unfolding run_body
  run_body-Moves x (returns v) s well tracked = Moves-refl x s tracked
  run_body-Moves x (raises y) s well tracked = Moves-refl x s tracked
  run_body-Moves x (writes k content next) s (c, well) tracked =
      let first = write-Moves x k content s c tracked in
      let (r, s') = write l k content s in
      Moves-trans x s s' _ first (run_body-Moves x (next r) s' (well r) first.tracks)
  run_body-Moves x (reads k next) s well tracked =
      let first = read-Moves x k s tracked in
      let (r, s') = read l k s in
      Moves-trans x s s' _ first (run_body-Moves x (next r) s' (well r) first.tracks)
  run_body-Moves x (deletes k next) s (c, well) tracked =
      let first = delete-Moves x k s c tracked in
      let (r, s') = delete l k s in
      Moves-trans x s s' _ first (run_body-Moves x (next r) s' (well r) first.tracks)
