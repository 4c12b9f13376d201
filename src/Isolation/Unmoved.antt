-- ===== src/Isolation/Unmoved.antt =====
-- The commit-time diff against a description of its own: what the transaction may expect of a key
-- it read, in terms of the journal alone, and what the live store must then report.
use pherix.Base.{
  String, ◌≡◌, refl, sym, subst, ◌∙◌, ap, ◌↔◌, Bool, true, false, Option, none, some, List, [], ◌∷◌,
  ◌++◌, Dict, get, All, All-map, Bool-cases, Option-cases, inl, inr, if◌then◌else◌,
}
use pherix.Values.{Key, Version, KeyEntry, version_eq}
use pherix.Effects.{Effect}
use pherix.Errors.{ok}
use pherix.Adapter.{Adapter}
use pherix.Isolation.{
  hits, last_in, all_writes, all_reads, last_my_write, committed_only, version_or, version_expected,
  diff_adapter, check_conflicts,
}
use pherix.Isolation.Diff.{
  NoneHits, IsLast, last_my_write-IsLast, QuietAt, IsQuiet, check_conflicts-IsQuiet,
}

module _ (resource : String) (key : Key) where
  last_in-NoneHits :
      (entries : List KeyEntry) (found : Option Version)
      → NoneHits resource key entries
      → last_in resource key entries found ≡ found
  last_in-NoneHits [] found h = refl
  last_in-NoneHits (e ∷ es) found (other, rest) = rw other (last_in-NoneHits es found rest)

  last_in-last :
      (before : List KeyEntry) (last : KeyEntry) (after : List KeyEntry) (found : Option Version)
      → hits resource key last ≡ true
      → NoneHits resource key after
      → last_in resource key (before ++ last ∷ after) found ≡ some last.version
  last_in-last [] last after found own none_after =
      rw (last_in, own) (last_in-NoneHits after (some last.version) none_after)
  last_in-last (e ∷ es) last after found own none_after =
      last_in-last es last after (if hits resource key e then some e.version else found) own
        none_after

  IsLast-last_in :
      (entries : List KeyEntry) (v : Version)
      → IsLast resource key entries v
      → last_in resource key entries none ≡ some v
  IsLast-last_in entries v (before, last, after, split, own, same, none_after) =
      rw split (last_in-last before last after none own none_after ∙ ap some same)

  last_in-some :
      (entries : List KeyEntry) (v : Version)
      → (o : Option Version) × (last_in resource key entries (some v) ≡ some (version_or o v))
  last_in-some [] v = (none, refl)
  last_in-some (e ∷ es) v = elim (Bool-cases (hits resource key e)) [
    | inl own ↦
        let (o, same) = last_in-some es e.version in (some (version_or o e.version), rw own same)
    | inr other ↦ let (o, same) = last_in-some es v in (o, rw other same)
  ]

  absent-NoneHits :
      (entries : List KeyEntry)
      → last_in resource key entries none ≡ none
      → NoneHits resource key entries
  absent-NoneHits [] h = tt
  absent-NoneHits (e ∷ es) h = elim (Bool-cases (hits resource key e)) [
    | inl own ↦
        let (o, same) = last_in-some es e.version in
        let wrong : some (version_or o e.version) ≡ none = sym same ∙ rw own at h in cc
    | inr other ↦ (other, absent-NoneHits es (rw other at h))
  ]

  -- The version that the diff takes as the transaction's own last write of a key is that of an own
  -- write of the key behind which the journal has no further one; and it takes none exactly if no
  -- own write of the journal has the key.
  pub last_my_write_iff :
      (effects : List Effect) (v : Version)
      → ((last_my_write effects resource key ≡ some v) ↔ IsLast resource key (all_writes effects) v)
        × ((last_my_write effects resource key ≡ none) ↔ NoneHits resource key (all_writes effects))
  unfolding last_my_write
  last_my_write_iff effects v = (
    (last_my_write-IsLast resource key effects v, IsLast-last_in (all_writes effects) v),
    (absent-NoneHits (all_writes effects), last_in-NoneHits (all_writes effects) none),
  )

module _ {W : Type 0} (writes : List KeyEntry) (a : Adapter W) (entry : KeyEntry) where
  -- The version that a transaction with these writes may expect of the key of a read. An adapter
  -- that reports committed versions only still reports the version that was read. Any other reports
  -- the version of the last own write of the key, and the version that was read if there is none.
  pub data Expects (v : Version) : Type 0 where
    of_committed : a.reads_committed_only ≡ some true → v ≡ entry.version → Expects v
    of_own_write :
        committed_only a.reads_committed_only ≡ false
        → IsLast entry.resource entry.key writes v
        → Expects v
    of_read :
        committed_only a.reads_committed_only ≡ false
        → NoneHits entry.resource entry.key writes
        → v ≡ entry.version
        → Expects v

committed_only-some : (o : Option Bool) → committed_only o ≡ true → o ≡ some true
committed_only-some none h = cc
committed_only-some (some b) h = ap some h

module _ {W : Type 0} (effects : List Effect) (a : Adapter W) (entry : KeyEntry) where
  own_or_read :
      committed_only a.reads_committed_only ≡ false
      → (o : Option Version) → last_my_write effects entry.resource entry.key ≡ o
      → Expects (all_writes effects) a entry (version_or o entry.version)
  unfolding last_my_write
  own_or_read live none e =
      of_read live (absent-NoneHits entry.resource entry.key (all_writes effects) e) refl
  own_or_read live (some v) e =
      of_own_write live (last_my_write-IsLast entry.resource entry.key effects v e)

  version_expected-Expects : Expects (all_writes effects) a entry (version_expected effects a entry)
  unfolding version_expected
  version_expected-Expects = elim (Bool-cases (committed_only a.reads_committed_only)) [
    | inl fixed ↦ of_committed (committed_only-some a.reads_committed_only fixed) (rw fixed refl)
    | inr live ↦ rw live (own_or_read live _ refl)
  ]

  Expects-version_expected :
      (v : Version) → Expects (all_writes effects) a entry v → v ≡ version_expected effects a entry
  unfolding version_expected last_my_write
  Expects-version_expected v (of_committed fixed same) = rw (fixed, same) refl
  Expects-version_expected v (of_own_write live last) =
      rw (live, IsLast-last_in entry.resource entry.key (all_writes effects) v last) refl
  Expects-version_expected v (of_read live none_hits same) =
      rw (live, last_in-NoneHits entry.resource entry.key (all_writes effects) none none_hits, same)
        refl

module _ {W : Type 0} (effects : List Effect) (adapters : Dict (Adapter W)) (w : W) where
  -- The diff has nothing to say on this read: its resource has no adapter, or one that cannot roll
  -- back, or the adapter reports, for the key now, a version equal to the one that the transaction
  -- may expect.
  pub data IsUnmoved (entry : KeyEntry) : Type 0 where
    no_adapter : get entry.resource adapters ≡ none → IsUnmoved entry
    no_rollback :
        (a : Adapter W)
        → get entry.resource adapters ≡ some a
        → a.supports_rollback ≡ false
        → IsUnmoved entry
    unmoved :
        (a : Adapter W) (now expected : Version)
        → get entry.resource adapters ≡ some a
        → a.supports_rollback ≡ true
        → a.read_version entry.key w ≡ ok now
        → Expects (all_writes effects) a entry expected
        → version_eq now expected ≡ true
        → IsUnmoved entry

  diff_adapter-none :
      (entry : KeyEntry) → get entry.resource adapters ≡ none → diff_adapter adapters entry ≡ none
  unfolding diff_adapter
  diff_adapter-none entry found = rw (diff_adapter, found) refl

  diff_adapter-some :
      (entry : KeyEntry) (a : Adapter W)
      → get entry.resource adapters ≡ some a
      → diff_adapter adapters entry ≡ (if a.supports_rollback then some a else none)
  unfolding diff_adapter
  diff_adapter-some entry a found = rw (diff_adapter, found) refl

  IsQuiet-IsUnmoved : (entry : KeyEntry) → IsQuiet effects adapters w entry → IsUnmoved entry
  IsQuiet-IsUnmoved entry quiet = elim (Option-cases (get entry.resource adapters)) [
    | inl found ↦ no_adapter found
    | inr (a, found) ↦ elim (Bool-cases a.supports_rollback) [
      | inr out ↦ no_rollback a found out
      | inl lane ↦
          let diffed : diff_adapter adapters entry ≡ some a =
            diff_adapter-some entry a found ∙ rw lane refl in
          let (now, e, same) = subst (λ o. QuietAt effects w o entry) diffed quiet in
          unmoved a now (version_expected effects a entry) found lane e
            (version_expected-Expects effects a entry) same
    ]
  ]

  IsUnmoved-IsQuiet : (entry : KeyEntry) → IsUnmoved entry → IsQuiet effects adapters w entry
  IsUnmoved-IsQuiet entry (no_adapter found) =
      subst (λ o. QuietAt effects w o entry) (sym (diff_adapter-none entry found)) tt
  IsUnmoved-IsQuiet entry (no_rollback a found out) =
      let diffed : diff_adapter adapters entry ≡ none =
        diff_adapter-some entry a found ∙ rw out refl in
      subst (λ o. QuietAt effects w o entry) (sym diffed) tt
  IsUnmoved-IsQuiet entry (unmoved a now expected found lane e may same) =
      let diffed : diff_adapter adapters entry ≡ some a =
        diff_adapter-some entry a found ∙ rw lane refl in
      let agrees : version_eq now (version_expected effects a entry) ≡ true =
        ap (version_eq now) (sym (Expects-version_expected effects a entry expected may)) ∙ same in
      subst (λ o. QuietAt effects w o entry) (sym diffed) (now, e, agrees)

  -- The commit-time diff reports no conflict exactly if each read of the journal is passed over,
  -- since its resource has no adapter or one that cannot roll back, or its adapter reports for the
  -- key a version equal to the expected one: the version that was read, where the adapter reports
  -- committed versions only or the journal has no own write of the key, and else the version of the
  -- last own write of it.
  pub check_conflicts_iff :
      (check_conflicts effects adapters w ≡ ok []) ↔ All IsUnmoved (all_reads effects)
  check_conflicts_iff =
      let (quiet, back) = check_conflicts-IsQuiet effects adapters w in
      (
        λ h. All-map (IsQuiet effects adapters w) IsUnmoved _ IsQuiet-IsUnmoved (quiet h),
        λ h. back (All-map IsUnmoved (IsQuiet effects adapters w) _ IsUnmoved-IsQuiet h),
      )
