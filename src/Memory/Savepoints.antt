-- ===== src/Memory/Savepoints.antt =====
-- What may happen between a snapshot and its restoration, and what the restoration gives then.
use pherix.Base.{
  String, ◌≡◌, refl, ap, ◌∙◌, false, Option, none, some, List, [], ◌∷◌, ◌++◌, ◌==◌, arith, eq_refl,
}
use pherix.Values.{Args, Snapshot, str, dict, entry, no_entry}
use pherix.Effects.{Effect}
use pherix.Errors.{Result, ok}
use pherix.Memory.{Rows, Database, Texts, newest, or_now, rollback_db, rollback_to_db, savepoint_db}
use pherix.Memory.Handle.{Body}
use pherix.Memory.Store.{savepoint_name, snapshot, restore, savepoint_of, memory_tool}

-- What `snapshot` returns.
abbrev pub handle_of : Texts → Effect → Snapshot
handle_of t e = record {
  resource = "memory";
  effect_index = e.index;
  payload = dict (entry "savepoint" (str (savepoint_name t e.index)) no_entry);
}

abbrev pub after_snapshot : Texts → Effect → Database → Database
after_snapshot t e w = (snapshot t e w).1

-- `Within t sp w0 w`: the connection went from `w0`, just behind the savepoint `sp`, to `w`. Tools of
-- any namespace ran, other savepoints were taken, and some of those were restored.
pub data Within (t : Texts) : String → Database → Database → Type 0 where
  at_once : {sp : String} {w : Database} → Within t sp w w
  ran :
      {sp : String} {w0 w : Database}
      → Within t sp w0 w
      → (namespace : String) (body : Args → Body) (e : Effect)
      → Within t sp w0 (memory_tool t namespace body e w).world
  saved :
      {sp : String} {w0 w : Database}
      → Within t sp w0 w
      → (e : Effect) → (savepoint_name t e.index == sp) ≡ false
      → Within t sp w0 (after_snapshot t e w)
  undone :
      {sp : String} {w0 w w' : Database}
      → Within t sp w0 w
      → (e : Effect) → (savepoint_name t e.index == sp) ≡ false
      → Within t (savepoint_name t e.index) (after_snapshot t e w) w'
      → Within t sp w0 (restore t (handle_of t e) w').1

-- The savepoints of `w0` are still there, and none above them has the name.
record Stands (sp : String) (w0 w : Database) : Type 0 where
  above : List (String × Rows)
  savepoints_are : w.savepoints ≡ above ++ w0.savepoints
  free : newest sp above ≡ none
  same_begun : w.begun ≡ w0.begun

newest-append :
    (sp : String) (above rest : List (String × Rows))
    → newest sp above ≡ none
    → newest sp (above ++ rest) ≡ newest sp rest
newest-append sp [] rest free = refl
newest-append sp ((n, rows) ∷ above) rest free = ground (arith, newest-append sp above rest)

back :
    (sp : String) (rows : Rows) (below : List (String × Rows)) (w0 w : Database)
    → w0.savepoints ≡ (sp, rows) ∷ below
    → Stands sp w0 w
    → rollback_to_db sp w
      ≡ (ok tt, record { rows = rows; begun = w0.begun; savepoints = (sp, rows) ∷ below })
unfolding rollback_to_db
back sp rows below w0 w top stands =
    let found : newest sp w.savepoints ≡ some ((sp, rows) ∷ below) =
      ap (newest sp) stands.savepoints_are
      ∙ newest-append sp stands.above w0.savepoints stands.free
      ∙ ap (newest sp) top
      ∙ rw (eq_refl sp) refl in
    rw (found, stands.same_begun) refl

back_to_snapshot :
    (t : Texts) (e : Effect) (w w' : Database)
    → Stands (savepoint_name t e.index) (after_snapshot t e w) w'
    → restore t (handle_of t e) w' ≡ (ok tt, after_snapshot t e w)
unfolding restore snapshot savepoint_db savepoint_of
back_to_snapshot t e w w' stands =
    back (savepoint_name t e.index) w.rows w.savepoints (after_snapshot t e w) w' refl stands

still_begun : (before rows : Rows) (b : Option Rows) → b ≡ some before → or_now rows b ≡ b
still_begun before rows b h = rw h refl

Within-Stands :
    (t : Texts) (before : Rows) {sp : String} {w0 w : Database}
    → w0.begun ≡ some before
    → Within t sp w0 w
    → Stands sp w0 w
unfolding snapshot savepoint_db memory_tool
Within-Stands t before open_ at_once = record {
  above = [];
  savepoints_are = refl;
  free = refl;
  same_begun = refl;
}
Within-Stands t before open_ (ran history namespace body e) =
    let s = Within-Stands t before open_ history in
    record {
      above = s.above;
      savepoints_are = s.savepoints_are;
      free = s.free;
      same_begun = s.same_begun;
    }
Within-Stands t before open_ (saved {w} history e other) =
    let s = Within-Stands t before open_ history in
    record {
      above = (savepoint_name t e.index, w.rows) ∷ s.above;
      savepoints_are = ap (λ l. (savepoint_name t e.index, w.rows) ∷ l) s.savepoints_are;
      free = rw other s.free;
      same_begun = still_begun before w.rows w.begun (s.same_begun ∙ open_) ∙ s.same_begun;
    }
Within-Stands t before open_ (undone {w0} {w} {w'} history e other nested) =
    let s = Within-Stands t before open_ history in
    let kept = still_begun before w.rows w.begun (s.same_begun ∙ open_) in
    let n = Within-Stands t before (kept ∙ s.same_begun ∙ open_) nested in
    let there = back_to_snapshot t e w w' n in
    record {
      above = (savepoint_name t e.index, w.rows) ∷ s.above;
      savepoints_are =
          ap (λ (r : Result (Unit {0}) × Database). r.1.savepoints) there
          ∙ ap (λ l. (savepoint_name t e.index, w.rows) ∷ l) s.savepoints_are;
      free = rw other s.free;
      same_begun = ap (λ (r : Result (Unit {0}) × Database). r.1.begun) there ∙ kept ∙ s.same_begun;
    }

-- An effect takes its snapshot in an open transaction. Afterwards tools of any namespace run, and
-- savepoints of other names are taken and restored, in any number. Then restoring the effect's
-- handle gives the connection as it was just behind the snapshot, with the rows of that moment, and a
-- ROLLBACK instead gives the rows as they were at the BEGIN, and closes the transaction.
pub restore_and_rollback :
    (t : Texts) (e : Effect) (before : Rows) (w w' : Database)
    → w.begun ≡ some before
    → Within t (savepoint_name t e.index) (after_snapshot t e w) w'
    → (restore t (handle_of t e) w' ≡ (ok tt, after_snapshot t e w))
      × ((after_snapshot t e w).rows ≡ w.rows)
      × (rollback_db w' ≡ (ok tt, record { rows = before; begun = none; savepoints = [] }))
unfolding snapshot savepoint_db rollback_db
restore_and_rollback t e before w w' open_ history =
    let kept = still_begun before w.rows w.begun open_ in
    let stands = Within-Stands t before (kept ∙ open_) history in
    let begun' : w'.begun ≡ some before = stands.same_begun ∙ kept ∙ open_ in
    (back_to_snapshot t e w w' stands, refl, rw begun' refl)
