-- ===== src/Memory.antt =====
-- pherix/core/adapters/memory.py and the SavepointAdapter of pherix/core/adapters/base.py: an agent's
-- memory in a SQLite table, with SQLite's transactions and savepoints as its documents describe them.
-- Timestamps, and the errors of a full or a locked database file, are left out.
pub mod Handle
pub mod Store
pub mod Savepoints
pub mod Reference
pub mod Versions
pub mod Guard
pub mod Clean
use pherix.Base.{
  String, ℤ, Bool, true, false, ◌&&◌, Option, none, some, List, [], ◌∷◌, ◌==◌, if◌then◌else◌,
}
use pherix.Values.{Value, str}
use pherix.Errors.{ok, err, Exec, raised}

-- A row of `_pherix_memory`.
pub record Row : Type 0 where
  pub namespace : String
  pub mem_key : String
  pub value : String

abbrev pub Rows : Type 0
Rows = List Row

-- The connection: the table, the table as it was at BEGIN, and the savepoints, newest first.
pub record Database : Type 0 where
  pub rows : Rows
  pub begun : Option Rows
  pub savepoints : List (String × Rows)

-- What hashlib, json and the printing of integers give.
pub record Texts : Type 0 where
  pub sha256 : String → String
  pub json_dumps : Value → String
  pub index_text : ℤ → String

abbrev pub is_at : String → String → Row → Bool
is_at namespace key row = row.namespace == namespace && row.mem_key == key

-- `SELECT value FROM _pherix_memory WHERE namespace = ? AND mem_key = ?`
unfoldable pub select_value : String → String → Rows → Option String
select_value namespace key [] = none
select_value namespace key (row ∷ rows) =
    if is_at namespace key row then some row.value else select_value namespace key rows

-- `INSERT ... ON CONFLICT(namespace, mem_key) DO UPDATE SET value = excluded.value`
unfoldable pub upsert : String → String → String → Rows → Rows
upsert namespace key value [] = record { namespace = namespace; mem_key = key; value = value } ∷ []
upsert namespace key value (row ∷ rows) =
    if is_at namespace key row
    then record row { value = value } ∷ rows
    else row ∷ upsert namespace key value rows

-- `DELETE FROM _pherix_memory WHERE namespace = ? AND mem_key = ?`
unfoldable pub delete_value : String → String → Rows → Rows
delete_value namespace key [] = []
delete_value namespace key (row ∷ rows) =
    if is_at namespace key row
    then delete_value namespace key rows
    else row ∷ delete_value namespace key rows

-- BEGIN, COMMIT and ROLLBACK raise in the wrong state of the connection.
unfoldable pub begin_db : Exec Database (Unit {0})
begin_db w = elim w.begun [
  | none ↦ (ok tt, record w { begun = some w.rows; savepoints = [] })
  | some rows ↦ (err (raised "OperationalError"), w)
]

unfoldable pub commit_db : Exec Database (Unit {0})
commit_db w = elim w.begun [
  | none ↦ (err (raised "OperationalError"), w)
  | some rows ↦ (ok tt, record w { begun = none; savepoints = [] })
]

unfoldable pub rollback_db : Exec Database (Unit {0})
rollback_db w = elim w.begun [
  | none ↦ (err (raised "OperationalError"), w)
  | some rows ↦ (ok tt, record { rows = rows; begun = none; savepoints = [] })
]

-- SAVEPOINT opens a transaction where none is open.
abbrev pub or_now : Rows → Option Rows → Option Rows
or_now rows none = some rows
or_now rows (some before) = some before

unfoldable pub savepoint_db : String → Database → Database
savepoint_db name w = record w {
  begun = or_now w.rows w.begun;
  savepoints = (name, w.rows) ∷ w.savepoints;
}

-- ROLLBACK TO goes back to the newest savepoint of the name, which it keeps.
abbrev pub newest : String → List (String × Rows) → Option (List (String × Rows))
newest name [] = none
newest name ((n, rows) ∷ saved) = if n == name then some ((n, rows) ∷ saved) else newest name saved

abbrev pub back_to : Option (List (String × Rows)) → Exec Database (Unit {0})
back_to none w = (err (raised "OperationalError"), w)
back_to (some []) w = (err (raised "OperationalError"), w)
back_to (some ((n, rows) ∷ saved)) w =
    (ok tt, record w { rows = rows; savepoints = (n, rows) ∷ saved })

unfoldable pub rollback_to_db : String → Exec Database (Unit {0})
rollback_to_db name w = back_to (newest name w.savepoints) w
