-- ===== src/Sql.antt =====
-- pherix/core/adapters/sql.py: `execute_isolated`, the versions of the keys that statements declare,
-- and the intents that a transaction publishes to other processes. What a statement does to the
-- user's tables is a parameter, and the clock counts whole seconds. The bracket of a transaction
-- and the savepoints are those of Memory; the dump of the user's tables is left out.
pub mod Execute
pub mod Diff
pub mod Intents
pub mod Recorded
use pherix.Base.{
  ℕ, ℤ, pos, negsuc, ◌+ℤ◌, ltb_ℤ, String, Bool, true, false, not, ◌&&◌, ◌||◌, Option, none, some,
  List, [], ◌∷◌, ◌==◌, Dict, get, put, select, contains, if◌then◌else◌, ◌+◌,
}
use pherix.Values.{Key}

-- A row of `_pherix_intents`.
pub record Intent : Type 0 where
  pub txn_id : String
  pub resource : String
  pub key_json : String
  pub ts : ℤ

-- `_pherix_versions` as the transaction sees it and as it is committed, the intents, the user's
-- tables, and the time. A database in memory has no file to share.
pub record SqlStore (D : Type 0) : Type 0 where
  pub on_disk : Bool
  pub main : Dict ℕ
  pub committed : Dict ℕ
  pub intents : List Intent
  pub tables : D
  pub now : ℤ

abbrev pub version_in : Dict ℕ → String → ℕ
version_in versions key_json = elim (get key_json versions) [ none ↦ 0 | some n ↦ n ]

abbrev pub same_intent : String → String → String → Intent → Bool
same_intent txn_id resource key_json i =
    i.txn_id == txn_id && i.resource == resource && i.key_json == key_json

-- `INSERT ... ON CONFLICT(txn_id, resource, key_json) DO UPDATE SET ts = excluded.ts`
unfoldable pub upsert_intent : Intent → List Intent → List Intent
upsert_intent i [] = i ∷ []
upsert_intent i (j ∷ js) =
    if same_intent i.txn_id i.resource i.key_json j
    then record j { ts = i.ts } ∷ js
    else j ∷ upsert_intent i js

-- `{self._encode_key(k) for (r, k) in my_keys if r == self.name}`
unfoldable pub wanted_keys : (Key → String) → List (String × Key) → List String
wanted_keys encode_key [] = []
wanted_keys encode_key ((r, k) ∷ keys) =
    if r == "sql" then encode_key k ∷ wanted_keys encode_key keys else wanted_keys encode_key keys

-- `_INTENT_STALENESS_SECONDS` is 60.
abbrev pub is_live : ℤ → Intent → Bool
is_live now i = not (ltb_ℤ i.ts (now +ℤ negsuc 59))

abbrev pub blocks : String → List String → ℤ → Intent → Bool
blocks my_txn_id wanted now i =
    not (i.txn_id == my_txn_id) && is_live now i && contains i.key_json wanted

abbrev pub txns_of : List Intent → List String
txns_of [] = []
txns_of (i ∷ is) = i.txn_id ∷ txns_of is

module _ {D : Type 0} (encode_key : Key → String) where
  unfoldable pub read_version : Key → SqlStore D → ℕ
  read_version key w = version_in (if w.on_disk then w.committed else w.main) (encode_key key)

  unfoldable pub write_version : Key → SqlStore D → ℕ × SqlStore D
  write_version key w =
      let v = version_in w.main (encode_key key) + 1 in
      (v, record w { main = put (encode_key key) v w.main })

  unfoldable pub publish_intent : String → Key → SqlStore D → SqlStore D
  unfolding upsert_intent
  publish_intent txn_id key w =
      if w.on_disk
      then record w {
        intents =
            upsert_intent
              (record { txn_id = txn_id; resource = "sql"; key_json = encode_key key; ts = w.now })
              w.intents;
      }
      else w

  unfoldable pub clear_intents : String → SqlStore D → SqlStore D
  clear_intents txn_id w =
      if w.on_disk
      then record w { intents = select (λ (i : Intent). not (i.txn_id == txn_id)) w.intents }
      else w

  unfoldable pub conflicting_intents : String → List (String × Key) → SqlStore D → List String
  unfolding wanted_keys
  conflicting_intents my_txn_id my_keys w =
      if w.on_disk
      then txns_of (
          select (blocks my_txn_id (wanted_keys encode_key my_keys) w.now)
            (select (λ (i : Intent). i.resource == "sql") w.intents))
      else []
