-- ===== src/Sql/Intents.antt =====
-- What another process sees of the intents of a transaction.
use pherix.Base.{
  ℤ, String, ◌≡◌, refl, ap, ◌∙◌, Bool, true, false, not, List, [], ◌∷◌, ◌==◌, contains, select,
  arith, eq_iff, eq_refl, Bool-cases, inl, inr, ltb_ℤ, ◌+ℤ◌, negsuc,
}
use pherix.Values.{Key}
use pherix.Sql.{
  SqlStore, Intent, same_intent, upsert_intent, publish_intent, clear_intents, wanted_keys, blocks,
  txns_of, conflicting_intents,
}

abbrev ours : Intent → Bool
ours i = i.resource == "sql"

abbrev blockers : String → List String → ℤ → List Intent → List String
blockers my_txn_id wanted now is = txns_of (select (blocks my_txn_id wanted now) (select ours is))

-- An intent of a transaction on a key blocks who wants the key, while it is live.
upsert-blocks :
    (mine txn_id key_json : String) (wanted : List String) (ts now : ℤ) (is : List Intent)
    → (txn_id == mine) ≡ false
    → contains key_json wanted ≡ true
    → ltb_ℤ ts (now +ℤ negsuc 59) ≡ false
    → contains txn_id (
        blockers mine wanted now (
          upsert_intent
            (record { txn_id = txn_id; resource = "sql"; key_json = key_json; ts = ts })
            is))
      ≡ true
unfolding upsert_intent
upsert-blocks mine txn_id key_json wanted ts now [] other wants live =
    rw (other, wants, live) (rw (eq_refl txn_id) refl)
upsert-blocks mine txn_id key_json wanted ts now (i ∷ is) other wants live =
    let rest = upsert-blocks mine txn_id key_json wanted ts now is other wants live in
    elim (Bool-cases (same_intent txn_id "sql" key_json i)) [
      | inl here ↦ ground (
        arith,
        eq_iff i.txn_id txn_id,
        eq_iff i.resource "sql",
        eq_iff i.key_json key_json,
        eq_refl txn_id,
      )
      | inr elsewhere ↦ ground (arith, rest)
    ]

clear-blocks :
    (mine txn_id : String) (wanted : List String) (now : ℤ) (is : List Intent)
    → contains txn_id
        (blockers mine wanted now (select (λ (i : Intent). not (i.txn_id == txn_id)) is))
      ≡ false
clear-blocks mine txn_id wanted now [] = refl
clear-blocks mine txn_id wanted now (i ∷ is) =
    let rest = clear-blocks mine txn_id wanted now is in
    ground (arith, eq_iff i.txn_id txn_id, rest)

module _ {D : Type 0} (encode_key : Key → String) where
  seen :
      (mine : String) (my_keys : List (String × Key)) (w : SqlStore D)
      → w.on_disk ≡ true
      → conflicting_intents encode_key mine my_keys w
        ≡ blockers mine (wanted_keys encode_key my_keys) w.now w.intents
  unfolding conflicting_intents
  seen mine my_keys w disk = ground arith

  publish-shared :
      (txn_id : String) (key : Key) (w : SqlStore D)
      → w.on_disk ≡ true
      → ((publish_intent encode_key txn_id key w).on_disk ≡ true)
        × ((publish_intent encode_key txn_id key w).intents
            ≡ upsert_intent
                (record {
                  txn_id = txn_id;
                  resource = "sql";
                  key_json = encode_key key;
                  ts = w.now;
                })
                w.intents)
  unfolding publish_intent
  publish-shared txn_id key w disk = (ground arith, ground arith)

  cleared :
      (mine txn_id : String) (my_keys : List (String × Key)) (w : SqlStore D)
      → contains txn_id
          (conflicting_intents encode_key mine my_keys (clear_intents encode_key txn_id w))
        ≡ false
  unfolding clear_intents conflicting_intents
  cleared mine txn_id my_keys w =
      ground (arith, clear-blocks mine txn_id (wanted_keys encode_key my_keys) w.now w.intents)

  -- A transaction on a shared file publishes its intent to write a key. Another transaction that
  -- reads the key sees it as a blocker for as long as the intent is no more than a minute old, and,
  -- whatever else is in the table, sees it no more once its intents are cleared.
  pub intent_blocks_until_cleared :
      (txn_id mine : String) (key : Key) (my_keys : List (String × Key)) (now : ℤ)
      (w later : SqlStore D)
      → w.on_disk ≡ true
      → (txn_id == mine) ≡ false
      → contains (encode_key key) (wanted_keys encode_key my_keys) ≡ true
      → ltb_ℤ w.now (now +ℤ negsuc 59) ≡ false
      → (contains txn_id (
            conflicting_intents encode_key mine my_keys
              (record (publish_intent encode_key txn_id key w) { now = now }))
          ≡ true)
        × (contains txn_id
              (conflicting_intents encode_key mine my_keys (clear_intents encode_key txn_id later))
            ≡ false)
  intent_blocks_until_cleared txn_id mine key my_keys now w later disk other wants live =
      let published = publish_intent encode_key txn_id key w in
      let (shared, there) = publish-shared txn_id key w disk in
      (
        ap (contains txn_id) (
              seen mine my_keys (record published { now = now }) shared
              ∙ ap (blockers mine (wanted_keys encode_key my_keys) now) there)
            ∙ upsert-blocks mine txn_id (encode_key key) (wanted_keys encode_key my_keys) w.now now
                w.intents other wants live,
        cleared mine txn_id my_keys later,
      )
