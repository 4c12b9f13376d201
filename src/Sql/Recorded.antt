-- ===== src/Sql/Recorded.antt =====
-- What `execute_isolated` records of the keys that the statements of a tool declare as read.
use pherix.Base.{
  eq_iff, ℕ, ◌≡◌, refl, ◌∙◌, ap, sym, subst, Bool, true, false, ◌&&◌, List, [], ◌∷◌, ◌++◌, ◌==◌,
  any, any-append, arith, All, All-map, if◌then◌else◌, String,
}
use pherix.Values.{Value, Args, KeyPart, part_eq, Key, KeyEntry, key_eq}
use pherix.Effects.{Effect}
use pherix.Errors.{Result, ok, err, is_ok}
use pherix.Sql.{SqlStore, read_version, write_version, publish_intent}
use pherix.Sql.Execute.{
  Recording, Body, returns, raises, executes, sql_entry, same_entry, record_reads, record_writes,
  execute_isolated, run_body, recording_for, sql_tool,
}

abbrev is_of : Key → KeyEntry → Bool
is_of key r = "sql" == r.resource && key_eq key r.key

-- The key has an entry.
abbrev pub HasEntry : List KeyEntry → Key → Type 0
HasEntry entries key = any (is_of key) entries ≡ true

module _ {D : Type 0} where
  -- The keys that the statements declare as read, when the body runs on these tables: those of a
  -- statement that raises are not read.
  abbrev pub declared_reads : Body D → D → List Key
  declared_reads (returns v) tables = []
  declared_reads (raises x) tables = []
  declared_reads (executes stmt reads writes next) tables =
      let (r, after) = stmt tables in
      (if is_ok r then reads else []) ++ declared_reads (next r) after

same_entry-is_of :
    (key : Key) (n : ℕ) (entries : List KeyEntry)
    → any (same_entry (sql_entry key n)) entries ≡ true
    → HasEntry entries key
same_entry-is_of key n [] h = cc
same_entry-is_of key n (r ∷ rs) h = ground (arith, same_entry-is_of key n rs)

HasEntry-append :
    (entries more : List KeyEntry) (key : Key)
    → HasEntry entries key
    → HasEntry (entries ++ more) key
HasEntry-append entries more key h = any-append (is_of key) entries more ∙ rw h refl

All-append : (P : Key → Type 0) (xs ys : List Key) → All P xs → All P ys → All P (xs ++ ys)
All-append P [] ys ps qs = qs
All-append P (x ∷ xs) ys (p, ps) qs = (p, All-append P xs ys ps qs)

part_eq_refl : (p : KeyPart) → part_eq p p ≡ true
part_eq_refl (KeyPart.text t) = ground (arith, eq_iff t t)
part_eq_refl (KeyPart.number n) = ground arith

key_eq_refl : (key : Key) → key_eq key key ≡ true
key_eq_refl [] = refl
key_eq_refl (p ∷ key) = rw (part_eq_refl p) (key_eq_refl key)

module _ {D : Type 0} (encode_key : Key → String) where
  -- The recording keeps the entries, the tables are the same, and the keys have entries.
  record Extends (s t : Recording D) (keys : List Key) : Type 0 where
    keeps : (key : Key) → HasEntry s.read_keys key → HasEntry t.read_keys key
    same : t.store.tables ≡ s.store.tables
    has : All (HasEntry t.read_keys) keys

  record_read :
      (key : Key) (n : ℕ) (s : Recording D) (b : Bool)
      → any (same_entry (sql_entry key n)) s.read_keys ≡ b
      → Extends s
          (if b then s else record s { read_keys = s.read_keys ++ sql_entry key n ∷ [] })
          (key ∷ [])
  record_read key n s true found = record {
    keeps = λ k h. h;
    same = refl;
    has = (same_entry-is_of key n s.read_keys found, tt);
  }
  record_read key n s false found = record {
    keeps = HasEntry-append s.read_keys (sql_entry key n ∷ []);
    same = refl;
    has = (
      rw (any-append (is_of key) s.read_keys (sql_entry key n ∷ []), key_eq_refl key)
          (ground arith),
      tt,
    );
  }

  record_reads-Extends :
      (keys : List Key) (s : Recording D) → Extends s (record_reads encode_key keys s) keys
  unfolding record_reads
  record_reads-Extends [] s = record { keeps = λ k h. h; same = refl; has = tt }
  record_reads-Extends (key ∷ keys) s =
      let here = record_read key (read_version encode_key key s.store) s _ refl in
      let rest = record_reads-Extends keys _ in
      record {
        keeps = λ k h. rest.keeps k (here.keeps k h);
        same = rest.same ∙ here.same;
        has = (rest.keeps key here.has.0, rest.has);
      }

  publish-tables :
      (txn_id : String) (key : Key) (w : SqlStore D)
      → (publish_intent encode_key txn_id key w).tables ≡ w.tables
  unfolding publish_intent
  publish-tables txn_id key w = ground arith

  record_writes-keeps :
      (keys : List Key) (s : Recording D)
      → ((record_writes encode_key keys s).read_keys ≡ s.read_keys)
        × ((record_writes encode_key keys s).store.tables ≡ s.store.tables)
  unfolding record_writes write_version publish_intent
  record_writes-keeps [] s = (refl, refl)
  record_writes-keeps (key ∷ keys) s =
      let (v, store) = write_version encode_key key s.store in
      let t : Recording D = record s {
        store = publish_intent encode_key s.txn_id key store;
        write_keys = s.write_keys ++ sql_entry key v ∷ [];
      } in
      let (same, tables) = record_writes-keeps keys t in
      (same, tables ∙ publish-tables s.txn_id key store)

  execute-Extends :
      (r : Result Value) (reads writes : List Key) (s : Recording D)
      → Extends s
          (elim r as (λ _. Result Value × Recording D) [
            | ok v ↦ (ok v, record_writes encode_key writes (record_reads encode_key reads s))
            | err x ↦ (err x, s)
          ]).1
          (if is_ok r then reads else [])
  execute-Extends (ok v) reads writes s =
      let read = record_reads-Extends reads s in
      let (same, tables) = record_writes-keeps writes (record_reads encode_key reads s) in
      record {
        keeps = λ k h. subst (λ l. HasEntry l k) (sym same) (read.keeps k h);
        same = tables ∙ read.same;
        has = subst (λ l. All (HasEntry l) reads) (sym same) read.has;
      }
  execute-Extends (err x) reads writes s = record { keeps = λ k h. h; same = refl; has = tt }

  execute-result :
      (r : Result Value) (reads writes : List Key) (s : Recording D)
      → (elim r as (λ _. Result Value × Recording D) [
        | ok v ↦ (ok v, record_writes encode_key writes (record_reads encode_key reads s))
        | err x ↦ (err x, s)
      ]).0
        ≡ r
  execute-result (ok v) reads writes s = refl
  execute-result (err x) reads writes s = refl

  run_body-Extends :
      (body : Body D) (s : Recording D)
      → ((k : Key) → HasEntry s.read_keys k → HasEntry (run_body encode_key body s).1.read_keys k)
        × All
            (HasEntry (run_body encode_key body s).1.read_keys)
            (declared_reads body s.store.tables)
  unfolding run_body execute_isolated
  run_body-Extends (returns v) s = (λ k h. h, tt)
  run_body-Extends (raises x) s = (λ k h. h, tt)
  run_body-Extends (executes stmt reads writes next) s =
      let (r, tables) = stmt s.store.tables in
      let t : Recording D = record s { store = record s.store { tables = tables } } in
      let (x, s') = execute_isolated encode_key stmt reads writes s in
      let here : Extends t s' (if is_ok r then reads else []) = execute-Extends r reads writes t in
      let (keeps, rest) = run_body-Extends (next x) s' in
      let entries = (run_body encode_key (next x) s').1.read_keys in
      let reads_are : declared_reads (next x) s'.store.tables ≡ declared_reads (next r) tables =
        ap (λ q. declared_reads (next q) s'.store.tables) (execute-result r reads writes t)
        ∙ ap (declared_reads (next r)) here.same in
      (
        λ k h. keeps k (here.keeps k h),
        All-append (HasEntry entries) (if is_ok r then reads else [])
            (declared_reads (next r) tables)
            (All-map (HasEntry s'.read_keys) (HasEntry entries) _ keeps here.has)
            (subst (All (HasEntry entries)) reads_are rest),
      )

  -- Every key that a statement of a tool declares as read, when the statement returns, has an
  -- entry among the read keys that the effect is marked with, whatever the tool does before and after.
  pub reads_are_recorded :
      (body : Args → Body D) (e : Effect) (w : SqlStore D)
      → All
          (HasEntry (sql_tool encode_key body e w).marks.read_keys)
          (declared_reads (body e.args) w.tables)
  unfolding sql_tool
  reads_are_recorded body e w = (run_body-Extends (body e.args) (recording_for encode_key e w)).1
