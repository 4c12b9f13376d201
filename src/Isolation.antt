-- ===== src/Isolation.antt =====
-- pherix/core/isolation.py: the commit-time diff of the reads against the live versions, and what
-- each resolution policy raises. What happens during a wait on others
-- (`JournalRegistry`) is a parameter of the commit.
pub mod Diff
pub mod Unmoved
use pherix.Base.{
  ℕ, String, Bool, true, false, not, ◌&&◌, ◌||◌, Option, none, some, List, [], ◌∷◌, ◌++◌, ◌==◌,
  Dict, get, if◌then◌else◌,
}
use pherix.Values.{Key, Version, KeyEntry, key_eq, version_eq}
use pherix.Effects.{Effect}
use pherix.Errors.{Result, ok, err, and_then, Conflict, Exc, isolation_conflict, retry_signal}
use pherix.Adapter.{Adapter}

abbrev pub hits : String → Key → KeyEntry → Bool
hits resource key e = e.resource == resource && key_eq e.key key

-- The last of the entries with this key, or what was found before.
abbrev pub last_in : String → Key → List KeyEntry → Option Version → Option Version
last_in resource key [] found = found
last_in resource key (e ∷ es) found =
    last_in resource key es (if hits resource key e then some e.version else found)

abbrev pub all_writes : List Effect → List KeyEntry
all_writes [] = []
all_writes (e ∷ es) = e.write_keys ++ all_writes es

abbrev pub all_reads : List Effect → List KeyEntry
all_reads [] = []
all_reads (e ∷ es) = e.read_keys ++ all_reads es

-- `last_my_write.get((resource, key))`
unfoldable pub last_my_write : List Effect → String → Key → Option Version
last_my_write effects resource key = last_in resource key (all_writes effects) none

-- `_reads_committed_only`
abbrev pub committed_only : Option Bool → Bool
committed_only none = false
committed_only (some b) = b

abbrev pub version_or : Option Version → Version → Version
version_or none v = v
version_or (some u) v = u

module _ {W : Type 0} where
  -- The version that the diff expects to find.
  unfoldable pub version_expected : List Effect → Adapter W → KeyEntry → Version
  version_expected effects a entry =
      if committed_only a.reads_committed_only
      then entry.version
      else version_or (last_my_write effects entry.resource entry.key) entry.version

  -- The adapter of a read that takes part in the diff.
  unfoldable pub diff_adapter : Dict (Adapter W) → KeyEntry → Option (Adapter W)
  diff_adapter adapters entry = elim (get entry.resource adapters) [
    | none ↦ none
    | some a ↦ if a.supports_rollback then some a else none
  ]

  abbrev pub compare_read : List Effect → Adapter W → W → KeyEntry → Result (List Conflict)
  compare_read effects a w entry =
      let expected = version_expected effects a entry in
      and_then (a.read_version entry.key w) λ now. ok (
        if version_eq now expected
        then []
        else record {
          resource = entry.resource;
          key = entry.key;
          version_at_read = entry.version;
          version_now = now;
          version_expected = expected;
        }
          ∷ [])

  unfoldable pub diff_read : List Effect → Dict (Adapter W) → W → KeyEntry → Result (List Conflict)
  unfolding version_expected diff_adapter
  diff_read effects adapters w entry = elim (diff_adapter adapters entry) [
    | none ↦ ok []
    | some a ↦ compare_read effects a w entry
  ]

  unfoldable pub diff_reads :
      List Effect → Dict (Adapter W) → W → List KeyEntry → Result (List Conflict)
  diff_reads effects adapters w [] = ok []
  diff_reads effects adapters w (entry ∷ entries) =
      and_then (diff_read effects adapters w entry)
        λ found. and_then (diff_reads effects adapters w entries) λ rest. ok (found ++ rest)

  -- `check_conflicts`, in the world of the moment.
  unfoldable pub check_conflicts : List Effect → Dict (Adapter W) → W → Result (List Conflict)
  unfolding diff_reads
  check_conflicts effects adapters w = diff_reads effects adapters w (all_reads effects)

-- `Abort`, `Retry(max_attempts)` and `Serialize`.
pub data Isolation : Type 0 where
  abort serialize : Isolation
  retry : ℕ → Isolation

-- What `resolve` raises; the flag is the context variable that `run_txn` sets.
unfoldable pub resolve : Isolation → Bool → List Conflict → Exc
resolve abort in_run_txn conflicts = isolation_conflict conflicts
resolve serialize in_run_txn conflicts = isolation_conflict conflicts
resolve (retry n) in_run_txn conflicts =
    if in_run_txn then retry_signal conflicts else isolation_conflict conflicts
