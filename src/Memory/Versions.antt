-- ===== src/Memory/Versions.antt =====
-- The versions that the tools of the memory record, against the diff at commit.
use pherix.Base.{
  ℕ, String, ◌≡◌, refl, sym, ap, subst, ◌∙◌, inl, inr, true, false, Option, none, some, List, [],
  ◌∷◌, ◌++◌, ◌==◌, arith, eq_iff, eq_refl, All, All-snoc, All-map, append_assoc, append-nil,
  contains, if◌then◌else◌, Bool-cases,
}
use pherix.Values.{Value, Args, text, Version, KeyEntry, version_eq}
use pherix.Effects.{Effect}
use pherix.Errors.{Result, ok}
use pherix.Isolation.{
  hits, last_in, all_reads, all_writes, version_or, version_expected, diff_adapter, check_conflicts,
  last_my_write,
}
use pherix.Isolation.Diff.{QuietAt, IsQuiet, check_conflicts-IsQuiet}
use pherix.Policy.Context.{ReadKey}
use pherix.Runtime.Record.{marked}
use pherix.Memory.{Rows, Database, Texts, select_value}
use pherix.Memory.Handle.{
  Handle, Body, returns, raises, remembers, recalls, forgets, payload_text, run_body,
  record_read_key, record_write_key, key_entry, version_now, version_of_value, read_version,
}
use pherix.Memory.Store.{memory_tool, memory_adapter, handle_for}
use pherix.Memory.Reference.{select-upsert, select-delete}

abbrev mine : String → List KeyEntry → Option Version
mine k writes = last_in "memory" (text k ∷ []) writes none

last_in-snoc :
    (k : String) (writes : List KeyEntry) (e : KeyEntry) (found : Option Version)
    → last_in "memory" (text k ∷ []) (writes ++ e ∷ []) found ≡ (
        if hits "memory" (text k ∷ []) e
        then some e.version
        else last_in "memory" (text k ∷ []) writes found)
last_in-snoc k [] e found = refl
last_in-snoc k (x ∷ writes) e found = last_in-snoc k writes e _

some-inj : (u v : Version) → ◌≡◌ {A = Option Version} (some u) (some v) → u ≡ v
some-inj u v h = cc

mine-snoc :
    (t : Texts) (ns k j : String) (writes : List KeyEntry) (rows : Rows)
    → mine j (writes ++ key_entry t ns k rows ∷ [])
      ≡ (if k == j then some (version_now t ns k rows) else mine j writes)
mine-snoc t ns k j writes rows = last_in-snoc j writes (key_entry t ns k rows) none ∙ ground arith

module _ (t : Texts) (ns : String) where
  -- A read of the key expects the version that the store has now.
  abbrev Expected : List KeyEntry → Rows → KeyEntry → Type 0
  Expected writes rows r =
      (k : String) × (r.resource ≡ "memory")
      × (r.key ≡ text k ∷ [])
      × (version_or (mine k writes) r.version ≡ version_now t ns k rows)

  record Consistent (reads writes : List KeyEntry) (rows : Rows) : Type 0 where
    written : (k : String) (v : Version) → mine k writes ≡ some v → v ≡ version_now t ns k rows
    read_back : All (Expected writes rows) reads

  Consistent-read :
      (k : String) (reads writes : List KeyEntry) (rows : Rows)
      → Consistent reads writes rows
      → Consistent (reads ++ key_entry t ns k rows ∷ []) writes rows
  Consistent-read k reads writes rows c = record {
    written = c.written;
    read_back =
        All-snoc (Expected writes rows) reads (key_entry t ns k rows) c.read_back
          (k, refl, refl, expects (mine k writes) refl);
  }
    where
      expects :
          (o : Option Version)
          → mine k writes ≡ o
          → version_or o (version_now t ns k rows) ≡ version_now t ns k rows
      expects none e = refl
      expects (some v) e = c.written k v e

  -- The same keys are expected after a write of one key, which is recorded.
  Consistent-write :
      (k : String) (reads writes : List KeyEntry) (rows rows' : Rows)
      → ((j : String) → (k == j) ≡ false → select_value ns j rows' ≡ select_value ns j rows)
      → Consistent reads writes rows
      → Consistent reads (writes ++ key_entry t ns k rows' ∷ []) rows'
  Consistent-write k reads writes rows rows' same c = record {
    written = λ j v found. now j v found;
    read_back =
        All-map (Expected writes rows) (Expected (writes ++ key_entry t ns k rows' ∷ []) rows')
          reads moved c.read_back;
  }
    where
      unmoved : (j : String) → (k == j) ≡ false → version_now t ns j rows ≡ version_now t ns j rows'
      unmoved j other = ap (version_of_value t) (sym (same j other))

      hit :
          (j : String)
          → (k == j) ≡ true
          → mine j (writes ++ key_entry t ns k rows' ∷ []) ≡ some (version_now t ns j rows')
      hit j here =
          let one : k ≡ j = (eq_iff k j).0 here in
          mine-snoc t ns k j writes rows' ∙ rw here (ap (λ i. some (version_now t ns i rows')) one)

      miss :
          (j : String)
          → (k == j) ≡ false
          → mine j (writes ++ key_entry t ns k rows' ∷ []) ≡ mine j writes
      miss j other = mine-snoc t ns k j writes rows' ∙ rw other refl

      now :
          (j : String) (v : Version)
          → mine j (writes ++ key_entry t ns k rows' ∷ []) ≡ some v
          → v ≡ version_now t ns j rows'
      now j v found = elim (Bool-cases (k == j)) [
        | inl here ↦ some-inj v (version_now t ns j rows') (sym found ∙ hit j here)
        | inr other ↦ c.written j v (sym (miss j other) ∙ found) ∙ unmoved j other
      ]

      moved :
          (r : KeyEntry)
          → Expected writes rows r
          → Expected (writes ++ key_entry t ns k rows' ∷ []) rows' r
      moved r (j, mem, key, expected) = (
        j,
        mem,
        key,
        elim (Bool-cases (k == j)) [
          | inl here ↦ ap (λ o. version_or o r.version) (hit j here)
          | inr other ↦ ap (λ o. version_or o r.version) (miss j other) ∙ expected ∙ unmoved j other
        ],
      )

  module _ (before_reads before_writes : List KeyEntry) where
    abbrev IsConsistent : Handle → Type 0
    IsConsistent s = Consistent (before_reads ++ s.read_keys) (before_writes ++ s.write_keys) s.rows

    recorded_read :
        (key : String) (s : Handle) → IsConsistent s → IsConsistent (record_read_key t ns key s)
    unfolding record_read_key
    recorded_read key s c = elim (Bool-cases (contains key s.recorded_reads)) [
      | inl again ↦ rw again c
      | inr first ↦ rw first (
          subst (λ reads. Consistent reads (before_writes ++ s.write_keys) s.rows)
            (append_assoc before_reads s.read_keys (key_entry t ns key s.rows ∷ []))
            (Consistent-read key _ _ s.rows c))
    ]

    recorded_write :
        (key : String) (rows' : Rows) (s : Handle)
        → ((j : String) → (key == j) ≡ false → select_value ns j rows' ≡ select_value ns j s.rows)
        → IsConsistent s
        → IsConsistent (record_write_key t ns key (record s { rows = rows' }))
    unfolding record_write_key
    recorded_write key rows' s same c =
        subst (λ writes. Consistent (before_reads ++ s.read_keys) writes rows')
          (append_assoc before_writes s.write_keys (key_entry t ns key rows' ∷ []))
          (Consistent-write key _ _ s.rows rows' same c)

    run_body-IsConsistent :
        (body : Body) (s : Handle) → IsConsistent s → IsConsistent (run_body t ns body s).1
    unfolding run_body
    run_body-IsConsistent (returns v) s c = c
    run_body-IsConsistent (raises x) s c = c
    run_body-IsConsistent (remembers key value next) s c = run_body-IsConsistent next _ (
        recorded_write key _ s
          (λ j other.
            select-upsert ns ns key j (payload_text t value) s.rows ∙ rw (other, eq_refl ns) refl)
          c)
    run_body-IsConsistent (recalls key next) s c =
        run_body-IsConsistent (next (select_value ns key s.rows)) _ (recorded_read key s c)
    run_body-IsConsistent (forgets key next) s c = run_body-IsConsistent next _ (
        recorded_write key _ s
          (λ j other. select-delete ns ns key j s.rows ∙ rw (other, eq_refl ns) refl) c)

-- Effects of one transaction, run one after the other by tools of the namespace `ns`, from a store to
-- another.
pub data Runs (t : Texts) (ns : String) (start : Database) : List Effect → Database → Type 0 where
  none_yet : Runs t ns start [] start
  then_ran :
      {es : List Effect} {w : Database}
      → Runs t ns start es w
      → (body : Args → Body) (e : Effect) → e.read_keys ≡ []
      → e.write_keys ≡ []
      → Runs t ns start
          (es ++ marked (memory_tool t ns body e w).marks e ∷ [])
          (memory_tool t ns body e w).world

version_eq_refl : (v : Version) → version_eq v v ≡ true
version_eq_refl (Version.counter n) = ground arith
version_eq_refl (Version.digest s) = eq_refl s

all_reads-snoc :
    (es : List Effect) (e : Effect) → all_reads (es ++ e ∷ []) ≡ all_reads es ++ e.read_keys
all_reads-snoc [] e = append-nil e.read_keys
all_reads-snoc (x ∷ es) e =
    ap (λ l. x.read_keys ++ l) (all_reads-snoc es e)
    ∙ sym (append_assoc x.read_keys (all_reads es) e.read_keys)

all_writes-snoc :
    (es : List Effect) (e : Effect) → all_writes (es ++ e ∷ []) ≡ all_writes es ++ e.write_keys
all_writes-snoc [] e = append-nil e.write_keys
all_writes-snoc (x ∷ es) e =
    ap (λ l. x.write_keys ++ l) (all_writes-snoc es e)
    ∙ sym (append_assoc x.write_keys (all_writes es) e.write_keys)

Runs-Consistent :
    (t : Texts) (ns : String) (start : Database) {es : List Effect} {w : Database}
    → Runs t ns start es w
    → Consistent t ns (all_reads es) (all_writes es) w.rows
unfolding memory_tool
Runs-Consistent t ns start none_yet = record { written = λ k v found. cc; read_back = tt }
Runs-Consistent t ns start (then_ran {es} {w} runs body e no_reads no_writes) =
    let e' = marked (memory_tool t ns body e w).marks e in
    let c = Runs-Consistent t ns start runs in
    let c' =
      run_body-IsConsistent t ns (all_reads es) (all_writes es) (body e.args) (handle_for t ns w)
        (rw (append-nil (all_reads es), append-nil (all_writes es)) c) in
    let s' = (run_body t ns (body e.args) (handle_for t ns w)).1 in
    let reads_are : all_reads (es ++ e' ∷ []) ≡ all_reads es ++ s'.read_keys =
      all_reads-snoc es e' ∙ ap (λ l. all_reads es ++ (l ++ s'.read_keys)) no_reads in
    let writes_are : all_writes (es ++ e' ∷ []) ≡ all_writes es ++ s'.write_keys =
      all_writes-snoc es e' ∙ ap (λ l. all_writes es ++ (l ++ s'.write_keys)) no_writes in
    subst (λ reads. Consistent t ns reads (all_writes (es ++ e' ∷ [])) s'.rows) (sym reads_are)
      (subst (λ writes. Consistent t ns (all_reads es ++ s'.read_keys) writes s'.rows)
        (sym writes_are) c')

Expected-IsQuiet :
    (t : Texts) (ns : String) (ident : ℕ) (query : ReadKey → Database → Result (Option Value))
    (w : Database) (es : List Effect) (r : KeyEntry)
    → Expected t ns (all_writes es) w.rows r
    → IsQuiet es (("memory", memory_adapter t ns ident query) ∷ []) w r
unfolding diff_adapter version_expected last_my_write memory_adapter read_version
Expected-IsQuiet t ns ident query w es r (k, mem, key, expected) =
    let a = memory_adapter t ns ident query in
    let found : diff_adapter (("memory", a) ∷ []) r ≡ some a = rw mem refl in
    let wants : version_expected es a r ≡ version_or (mine k (all_writes es)) r.version =
      rw (mem, key) refl in
    subst (λ o. QuietAt es w o r) (sym found)
      (
        version_now t ns k w.rows,
        rw key refl,
        rw (wants, expected) (version_eq_refl (version_now t ns k w.rows)),
      )

-- Whatever the tools of a transaction remember, recall and forget, with the same keys read and
-- written in any order and by any of its effects: if nobody else writes, the diff at its commit
-- finds no conflict.
pub own_writes_no_conflict :
    (t : Texts) (ns : String) (ident : ℕ) (query : ReadKey → Database → Result (Option Value))
    (start w : Database) (es : List Effect)
    → Runs t ns start es w
    → check_conflicts es (("memory", memory_adapter t ns ident query) ∷ []) w ≡ ok []
own_writes_no_conflict t ns ident query start w es runs =
    let adapters = ("memory", memory_adapter t ns ident query) ∷ [] in
    (check_conflicts-IsQuiet es adapters w).1 (
      All-map (Expected t ns (all_writes es) w.rows) (IsQuiet es adapters w) (all_reads es)
        (Expected-IsQuiet t ns ident query w es) (Runs-Consistent t ns start runs).read_back)
