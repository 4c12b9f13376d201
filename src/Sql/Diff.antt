-- ===== src/Sql/Diff.antt =====
-- On disk, the diff at commit against what other processes have committed.
use pherix.Base.{
  ℕ, String, ◌≡◌, refl, sym, ap, subst, ◌∙◌, ◌↔◌, Bool, true, false, some, List, [], ◌∷◌, ◌++◌,
  Dict, All, All-snoc, any, arith, append-nil, if◌then◌else◌,
}
use pherix.Values.{Value, Args, Key, Version, version_eq, KeyEntry}
use pherix.Effects.{Effect}
use pherix.Errors.{Result, ok, err}
use pherix.Adapter.{Adapter}
use pherix.Isolation.{all_reads, check_conflicts, diff_adapter, version_expected}
use pherix.Isolation.Diff.{QuietAt, IsQuiet, check_conflicts-IsQuiet}
use pherix.Runtime.Record.{marked}
use pherix.Sql.{SqlStore, version_in, read_version, write_version, publish_intent}
use pherix.Sql.Execute.{
  Recording, Body, returns, raises, executes, sql_entry, same_entry, record_reads, record_writes,
  execute_isolated, run_body, recording_for, sql_tool, sql_adapter,
}

-- The read has the version of its key that was committed then.
abbrev ReadFrom : (Key → String) → Dict ℕ → KeyEntry → Type 0
ReadFrom encode_key committed r =
    (r.resource ≡ "sql") × (r.version ≡ Version.counter (version_in committed (encode_key r.key)))

-- Nobody has committed a write of the key since.
abbrev pub Unmoved : (Key → String) → Dict ℕ → Dict ℕ → KeyEntry → Type 0
Unmoved encode_key before now r =
    version_in now (encode_key r.key) ≡ version_in before (encode_key r.key)

ok-inj : (u v : Version) → ◌≡◌ {A = Result Version} (ok u) (ok v) → u ≡ v
ok-inj u v h = cc

same-counters : (m n : ℕ) → version_eq (Version.counter m) (Version.counter n) ≡ true → m ≡ n
same-counters m n h = ground arith

module _ {D : Type 0} (encode_key : Key → String) where
  record Reading (committed : Dict ℕ) (s : Recording D) : Type 0 where
    disk : s.store.on_disk ≡ true
    same : s.store.committed ≡ committed
    reads : All (ReadFrom encode_key committed) s.read_keys

  on_disk-version :
      (committed : Dict ℕ) (key : Key) (w : SqlStore D)
      → w.on_disk ≡ true
      → w.committed ≡ committed
      → read_version encode_key key w ≡ version_in committed (encode_key key)
  unfolding read_version
  on_disk-version committed key w disk same = rw (disk, same) refl

  record_reads-Reading :
      (committed : Dict ℕ) (keys : List Key) (s : Recording D)
      → Reading committed s
      → Reading committed (record_reads encode_key keys s)
  unfolding record_reads
  record_reads-Reading committed [] s r = r
  record_reads-Reading committed (key ∷ keys) s r =
      record_reads-Reading committed keys _ (step (any (same_entry triple) s.read_keys))
    where
      triple : KeyEntry
      triple = sql_entry key (read_version encode_key key s.store)

      step :
          (b : Bool)
          → Reading committed (if b then s else record s { read_keys = s.read_keys ++ triple ∷ [] })
      step true = r
      step false = record {
        disk = r.disk;
        same = r.same;
        reads =
            All-snoc (ReadFrom encode_key committed) s.read_keys triple r.reads
              (refl, ap Version.counter (on_disk-version committed key s.store r.disk r.same));
      }

  publish-committed :
      (txn_id : String) (key : Key) (w : SqlStore D)
      → ((publish_intent encode_key txn_id key w).committed ≡ w.committed)
        × ((publish_intent encode_key txn_id key w).on_disk ≡ w.on_disk)
  unfolding publish_intent
  publish-committed txn_id key w = (ground arith, ground arith)

  record_writes-Reading :
      (committed : Dict ℕ) (keys : List Key) (s : Recording D)
      → Reading committed s
      → Reading committed (record_writes encode_key keys s)
  unfolding record_writes write_version
  record_writes-Reading committed [] s r = r
  record_writes-Reading committed (key ∷ keys) s r =
      let (same, disk) = publish-committed s.txn_id key (write_version encode_key key s.store).1 in
      record_writes-Reading committed keys _
        (record { disk = disk ∙ r.disk; same = same ∙ r.same; reads = r.reads })

  execute_isolated-Reading :
      (committed : Dict ℕ) (stmt : D → Result Value × D) (reads writes : List Key) (s : Recording D)
      → Reading committed s
      → Reading committed (execute_isolated encode_key stmt reads writes s).1
  unfolding execute_isolated
  execute_isolated-Reading committed stmt reads writes s r = after (stmt s.store.tables).0
    where
      t : Recording D
      t = record s { store = record s.store { tables = (stmt s.store.tables).1 } }

      here : Reading committed t
      here = record { disk = r.disk; same = r.same; reads = r.reads }

      after :
          (o : Result Value)
          → Reading committed
              (elim o as (λ _. Result Value × Recording D) [
                | ok v ↦ (ok v, record_writes encode_key writes (record_reads encode_key reads t))
                | err x ↦ (err x, t)
              ]).1
      after (ok v) =
          record_writes-Reading committed writes _ (record_reads-Reading committed reads t here)
      after (err x) = here

  run_body-Reading :
      (committed : Dict ℕ) (body : Body D) (s : Recording D)
      → Reading committed s
      → Reading committed (run_body encode_key body s).1
  unfolding run_body
  run_body-Reading committed (returns v) s r = r
  run_body-Reading committed (raises x) s r = r
  run_body-Reading committed (executes stmt reads writes next) s r =
      run_body-Reading committed (next (execute_isolated encode_key stmt reads writes s).0) _
        (execute_isolated-Reading committed stmt reads writes s r)

  adapter-found :
      (lane : Adapter (SqlStore D)) (r : KeyEntry)
      → r.resource ≡ "sql"
      → diff_adapter (("sql", sql_adapter encode_key true lane) ∷ []) r
        ≡ some (sql_adapter encode_key true lane)
  unfolding diff_adapter sql_adapter
  adapter-found lane r mine = rw mine refl

  expected-read :
      (lane : Adapter (SqlStore D)) (es : List Effect) (r : KeyEntry)
      → version_expected es (sql_adapter encode_key true lane) r ≡ r.version
  unfolding version_expected sql_adapter
  expected-read lane es r = refl

  module _ (lane : Adapter (SqlStore D)) (es : List Effect) (before : Dict ℕ) (w : SqlStore D)
      (disk : w.on_disk ≡ true) where
    abbrev Quiet : KeyEntry → Type 0
    Quiet = IsQuiet es (("sql", sql_adapter encode_key true lane) ∷ []) w

    Unmoved-Quiet :
        (r : KeyEntry)
        → ReadFrom encode_key before r
        → Unmoved encode_key before w.committed r
        → Quiet r
    unfolding sql_adapter
    Unmoved-Quiet r (mine, at_read) unmoved =
        subst (λ o. QuietAt es w o r) (sym (adapter-found lane r mine))
          (
            Version.counter (read_version encode_key r.key w),
            refl,
            rw
                (
                  expected-read lane es r,
                  at_read,
                  on_disk-version w.committed r.key w disk refl,
                  unmoved,
                )
                (ground arith),
          )

    Quiet-Unmoved :
        (r : KeyEntry)
        → ReadFrom encode_key before r
        → Quiet r
        → Unmoved encode_key before w.committed r
    unfolding sql_adapter
    Quiet-Unmoved r (mine, at_read) quiet =
        let (now, read_now, same) =
          subst (λ o. QuietAt es w o r) (adapter-found lane r mine) quiet in
        let now_is : now ≡ Version.counter (version_in w.committed (encode_key r.key)) =
          ok-inj now _ (sym read_now)
          ∙ ap Version.counter (on_disk-version w.committed r.key w disk refl) in
        same-counters (version_in w.committed (encode_key r.key))
          (version_in before (encode_key r.key))
          (subst (λ v. version_eq v (Version.counter (version_in before (encode_key r.key))) ≡ true)
            now_is (subst (λ v. version_eq now v ≡ true) (expected-read lane es r ∙ at_read) same))

    All-Quiet :
        (rs : List KeyEntry)
        → All (ReadFrom encode_key before) rs
        → (All Quiet rs → All (Unmoved encode_key before w.committed) rs)
          × (All (Unmoved encode_key before w.committed) rs → All Quiet rs)
    All-Quiet [] reads = (λ q. tt, λ u. tt)
    All-Quiet (r ∷ rs) (read, reads) =
        let (there, back) = All-Quiet rs reads in
        (λ q. (Quiet-Unmoved r read q.0, there q.1), λ u. (Unmoved-Quiet r read u.0, back u.1))

  -- On disk: an effect's tool runs statements and declares the keys that they read and write. At the
  -- diff, later, the adapter reports no conflict exactly if the committed version of every key that
  -- the effect has recorded as read is still the one of its run. So the effect's own writes are no conflict, and
  -- another process that has committed a new version of a key that was read is one.
  pub diff_sees_commits :
      (lane : Adapter (SqlStore D)) (body : Args → Body D) (e : Effect) (w later : SqlStore D)
      → e.read_keys ≡ []
      → w.on_disk ≡ true
      → later.on_disk ≡ true
      → (check_conflicts
            (marked (sql_tool encode_key body e w).marks e ∷ [])
            (("sql", sql_adapter encode_key true lane) ∷ [])
            later
          ≡ ok [])
        ↔ All
            (Unmoved encode_key w.committed later.committed)
            (sql_tool encode_key body e w).marks.read_keys
  unfolding sql_tool
  diff_sees_commits lane body e w later fresh disk disk' =
      let e' = marked (sql_tool encode_key body e w).marks e in
      let s = (run_body encode_key body_of (recording_for encode_key e w)).1 in
      let r =
        run_body-Reading w.committed body_of (recording_for encode_key e w)
          (record { disk = disk; same = refl; reads = tt }) in
      let (there, back) = All-Quiet lane (e' ∷ []) w.committed later disk' s.read_keys r.reads in
      let reads_are : all_reads (e' ∷ []) ≡ s.read_keys =
        append-nil e'.read_keys ∙ ap (λ l. l ++ s.read_keys) fresh in
      let diff =
        check_conflicts-IsQuiet (e' ∷ []) (("sql", sql_adapter encode_key true lane) ∷ []) later in
      let quiet_all : List KeyEntry → Type 0 = All (Quiet lane (e' ∷ []) w.committed later disk') in
      (
        λ clean. there (subst quiet_all reads_are (diff.0 clean)),
        λ unmoved. diff.1 (subst quiet_all (sym reads_are) (back unmoved)),
      )
    where
      body_of : Body D
      body_of = body e.args
