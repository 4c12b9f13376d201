-- ===== src/Isolation/Diff.antt =====
-- What the commit-time diff finds, read by read.
use pherix.Base.{
  String, ◌≡◌, refl, sym, ◌∙◌, ◌↔◌, ◌⊎◌, true, false, Option, none, some, List, [], ◌∷◌, ◌++◌, Dict,
  arith, All, Bool-cases, inl, inr,
}
use pherix.Values.{Key, Version, KeyEntry, version_eq}
use pherix.Effects.{Effect}
use pherix.Errors.{Result, ok, Conflict, Result-cases}
use pherix.Adapter.{Adapter}
use pherix.Isolation.{
  hits, last_in, all_writes, all_reads, last_my_write, version_expected, diff_adapter, compare_read,
  diff_read, diff_reads, check_conflicts,
}

append-nil_parts : (xs ys : List Conflict) → xs ++ ys ≡ [] → (xs ≡ []) × (ys ≡ [])
append-nil_parts [] ys h = (refl, h)
append-nil_parts (x ∷ xs) ys h = cc

module _ {W : Type 0} (effects : List Effect) (w : W) where
  -- The live version of the read's key is the one that the transaction expects.
  abbrev pub QuietAt : Option (Adapter W) → KeyEntry → Type 0
  QuietAt none entry = Unit
  QuietAt (some a) entry =
      (now : Version) × (a.read_version entry.key w ≡ ok now)
      × (version_eq now (version_expected effects a entry) ≡ true)

  abbrev compare_at : Option (Adapter W) → KeyEntry → Result (List Conflict)
  compare_at none entry = ok []
  compare_at (some a) entry = compare_read effects a w entry

  compare-quiet :
      (o : Option (Adapter W)) (entry : KeyEntry) → compare_at o entry ≡ ok [] → QuietAt o entry
  compare-quiet none entry h = tt
  compare-quiet (some a) entry h = elim (Result-cases (a.read_version entry.key w)) [
    | inl (now, e) ↦ (now, e, ground arith)
    | inr (x, e) ↦ ground arith
  ]

  quiet-compare :
      (o : Option (Adapter W)) (entry : KeyEntry) → QuietAt o entry → compare_at o entry ≡ ok []
  quiet-compare none entry h = refl
  quiet-compare (some a) entry (now, e, same) = ground arith

module _ {W : Type 0} (effects : List Effect) (adapters : Dict (Adapter W)) (w : W) where
  -- Nobody else has moved the key of this read: its adapter is not one of the diff, or the version
  -- that it reports now is the expected one.
  abbrev pub IsQuiet : KeyEntry → Type 0
  IsQuiet entry = QuietAt effects w (diff_adapter adapters entry) entry

  diff_read-compare :
      (entry : KeyEntry)
      → diff_read effects adapters w entry
        ≡ compare_at effects w (diff_adapter adapters entry) entry
  unfolding diff_read
  diff_read-compare entry = ground arith

  diff_reads-IsQuiet :
      (entries : List KeyEntry)
      → diff_reads effects adapters w entries ≡ ok []
      → All IsQuiet entries
  unfolding diff_reads
  diff_reads-IsQuiet [] h = tt
  diff_reads-IsQuiet (entry ∷ entries) h =
      elim (Result-cases (diff_read effects adapters w entry)) [
        | inr (x, e) ↦ ground arith
        | inl (found, e) ↦ elim (Result-cases (diff_reads effects adapters w entries)) [
          | inr (x, f) ↦ ground arith
          | inl (rest, f) ↦
              let parts : (found ≡ []) × (rest ≡ []) = append-nil_parts found rest (ground arith) in
              let here : diff_read effects adapters w entry ≡ ok [] = ground arith in
              (
                compare-quiet effects w (diff_adapter adapters entry) entry
                    (sym (diff_read-compare entry) ∙ here),
                diff_reads-IsQuiet entries (ground arith),
              )
        ]
      ]

  quiet-diff_reads :
      (entries : List KeyEntry)
      → All IsQuiet entries
      → diff_reads effects adapters w entries ≡ ok []
  unfolding diff_reads
  quiet-diff_reads [] h = refl
  quiet-diff_reads (entry ∷ entries) (q, qs) =
      let here : diff_read effects adapters w entry ≡ ok [] =
        diff_read-compare entry ∙ quiet-compare effects w (diff_adapter adapters entry) entry q in
      rw (here, quiet-diff_reads entries qs)

  -- The diff reports no conflict exactly if every read of the journal is quiet.
  pub check_conflicts-IsQuiet :
      (check_conflicts effects adapters w ≡ ok []) ↔ All IsQuiet (all_reads effects)
  unfolding check_conflicts
  check_conflicts-IsQuiet =
      (diff_reads-IsQuiet (all_reads effects), quiet-diff_reads (all_reads effects))

-- `last_my_write` is the version of the last own write of the key: an entry with that key, behind
-- which no entry has it.
abbrev pub NoneHits : String → Key → List KeyEntry → Type 0
NoneHits resource key = All (λ e. hits resource key e ≡ false)

module _ (resource : String) (key : Key) where
  abbrev pub IsLast : List KeyEntry → Version → Type 0
  IsLast entries v =
      (before : List KeyEntry) × (last : KeyEntry) × (after : List KeyEntry) × (entries
        ≡ before ++ last ∷ after)
      × (hits resource key last ≡ true)
      × (last.version ≡ v)
      × NoneHits resource key after

  last_in-IsLast :
      (entries : List KeyEntry) (found : Option Version) (v : Version)
      → last_in resource key entries found ≡ some v
      → IsLast entries v ⊎ ((found ≡ some v) × NoneHits resource key entries)
  last_in-IsLast [] found v h = inr (h, tt)
  last_in-IsLast (e ∷ es) found v h = elim (Bool-cases (hits resource key e)) [
    | inl hit ↦ elim (last_in-IsLast es (some e.version) v (rw hit at h)) [
      | inl (before, last, after, split, own, same, none_after) ↦
          inl (e ∷ before, last, after, rw split, own, same, none_after)
      | inr (same, none_after) ↦ inl ([], e, es, refl, hit, ground arith, none_after)
    ]
    | inr other ↦ elim (last_in-IsLast es found v (rw other at h)) [
      | inl (before, last, after, split, own, same, none_after) ↦
          inl (e ∷ before, last, after, rw split, own, same, none_after)
      | inr (same, none_after) ↦ inr (same, (other, none_after))
    ]
  ]

  -- The version that the diff takes as the transaction's own last write of a key is that of an own
  -- write of the key behind which the journal has no further one.
  pub last_my_write-IsLast :
      (effects : List Effect) (v : Version)
      → last_my_write effects resource key ≡ some v
      → IsLast (all_writes effects) v
  unfolding last_my_write
  last_my_write-IsLast effects v h = elim (last_in-IsLast (all_writes effects) none v h) [
    | inl found ↦ found
    | inr (absent, _) ↦ cc
  ]
