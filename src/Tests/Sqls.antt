-- ===== src/Tests/Sqls.antt =====
-- A row that a transaction reads and writes, on disk, beside other processes.
use pherix.Base.{
  ℕ, ℤ, pos, String, ◌≡◌, refl, ◌↔◌, true, false, Option, none, some, List, [], ◌∷◌, All, contains,
  arith, get,
}
use pherix.Values.{null, str, Args, Key, KeyPart, Version}
use pherix.Effects.{Effect, EffectStatus, Outcome}
use pherix.Errors.{ok}
use pherix.Adapter.{Adapter}
use pherix.Isolation.{check_conflicts}
use pherix.Runtime.Record.{marked}
use pherix.Sql.{SqlStore, publish_intent, clear_intents, conflicting_intents, wanted_keys}
use pherix.Sql.Execute.{Body, sql_tool, sql_adapter}
use pherix.Sql.Diff.{Unmoved, diff_sees_commits}
use pherix.Sql.Intents.{intent_blocks_until_cleared}
use pherix.Sql.Recorded.{HasEntry, declared_reads, reads_are_recorded}

abbrev row : Key
row = KeyPart.text "orders" ∷ []

abbrev encode : Key → String
encode (KeyPart.text s ∷ []) = s
encode _ = "?"

abbrev store : SqlStore ℕ
store = record {
  on_disk = true;
  main = ("orders", 3) ∷ [];
  committed = ("orders", 3) ∷ [];
  intents = [];
  tables = 7;
  now = pos 100;
}

abbrev effect : Effect
effect = record {
  txn_id = "t";
  index = pos 0;
  tool = "add";
  args = [];
  resource = "sql";
  reversible = true;
  effect_id = "e0";
  read_keys = [];
  write_keys = [];
  status = EffectStatus.staged;
  snapshot = none;
  result = Outcome.missing;
  compensator = none;
  actor = none;
}

-- Reads the row and writes it.
abbrev add : Args → Body ℕ
add args =
    Body.executes (λ n. (ok null, n)) (row ∷ []) []
      (λ r. Body.executes (λ n. (ok null, 8)) [] (row ∷ []) (λ r. Body.returns null))

abbrev lane : Adapter (SqlStore ℕ)
lane = record {
  ident = 0;
  name = "sql";
  supports_rollback = true;
  snapshot =
      λ e w. (ok (record { resource = "sql"; effect_index = e.index; payload = str "sp_0" }), w);
  apply = λ e f w. f e w;
  restore = λ h w. (ok tt, w);
  transactional = true;
  begin_txn = λ w. (ok tt, w);
  commit_txn = λ w. (ok tt, w);
  rollback_txn = λ w. (ok tt, w);
  read_version = λ k w. ok (Version.counter 0);
  reads_committed_only = none;
  conn = none;
}

-- Another process has committed the fourth version.
abbrev later : SqlStore ℕ
later = record store { committed = ("orders", 4) ∷ [] }

diff_sees_commits_example :
    (check_conflicts
        (marked (sql_tool encode add effect store).marks effect ∷ [])
        (("sql", sql_adapter encode true lane) ∷ [])
        later
      ≡ ok [])
    ↔ All
        (Unmoved encode store.committed later.committed)
        (sql_tool encode add effect store).marks.read_keys
diff_sees_commits_example = diff_sees_commits encode lane add effect store later refl refl refl

reads_are_recorded_example :
    All
      (HasEntry (sql_tool encode add effect store).marks.read_keys)
      (declared_reads (add effect.args) store.tables)
reads_are_recorded_example = reads_are_recorded encode add effect store

intent_blocks_until_cleared_example :
    (contains "t" (
        conflicting_intents encode "other"
          (("sql", row) ∷ [])
          (record (publish_intent encode "t" row store) { now = pos 130 }))
      ≡ true)
    × (contains "t"
          (conflicting_intents encode "other" (("sql", row) ∷ []) (clear_intents encode "t" later))
        ≡ false)
unfolding wanted_keys pherix.Base.◌+ℤ◌
intent_blocks_until_cleared_example =
    intent_blocks_until_cleared encode "t" "other" row (("sql", row) ∷ []) (pos 130) store later
      refl refl refl refl
