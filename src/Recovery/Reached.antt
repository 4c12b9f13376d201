-- ===== src/Recovery/Reached.antt =====
-- The rows of a transaction that the fold over its effects is still to meet.
use pherix.Base.{
  ℤ, ◌==ℤ◌, String, ◌≡◌, refl, ◌∙◌, ap, Bool, true, false, not, ◌&&◌, ◌||◌, List, [], ◌∷◌, ◌++◌,
  any, any-append, all, map, select, arith, ◌==◌, Bool-cases, inl, inr, append_assoc, &&-true,
}
use pherix.Effects.{EffectStatus, is_applied}
use pherix.Audit.{EffectRow, is_row}
use pherix.Recovery.{with_status, stands, insert_desc, sort_desc}

abbrev pub compensate_rows : String → ℤ → List EffectRow → List EffectRow
compensate_rows id idx = map (with_status id idx EffectStatus.compensated)

-- The row does not stand, or the fold is still to meet its key.
abbrev pub reached : String → List EffectRow → EffectRow → Bool
reached id rows x =
    not (x.txn_id == id && is_applied x.status)
    || any (λ (r : EffectRow). is_applied r.status && x.idx ==ℤ r.idx) rows

unmet :
    (mine standing here later active : Bool)
    → (mine && here) ≡ false
    → (not (mine && standing) || ((active && here) || later)) ≡ true
    → (not (mine && standing) || later) ≡ true
unmet mine standing here later active other h = ground arith

reached-head :
    (id : String) (r : EffectRow) (rows : List EffectRow) (x : EffectRow)
    → reached id (r ∷ rows) x ≡ true
    → reached id rows (with_status id r.idx EffectStatus.compensated x) ≡ true
reached-head id r rows x h = elim (Bool-cases (is_row id r.idx x)) [
  | inl here ↦ rw (here, with_status) (ground arith)
  | inr other ↦
      rw (other, with_status)
        (unmet (x.txn_id == id) (is_applied x.status) (x.idx ==ℤ r.idx)
          (any (λ (q : EffectRow). is_applied q.status && x.idx ==ℤ q.idx) rows)
          (is_applied r.status) other h)
]

pub reached-compensated :
    (id : String) (r : EffectRow) (rows xs : List EffectRow)
    → all (reached id (r ∷ rows)) xs ≡ true
    → all (reached id rows) (compensate_rows id r.idx xs) ≡ true
reached-compensated id r rows [] h = refl
reached-compensated id r rows (x ∷ xs) h =
    let (first, rest) = &&-true (reached id (r ∷ rows) x) (all (reached id (r ∷ rows)) xs) h in
    rw (reached-head id r rows x first) (reached-compensated id r rows xs rest)

pub reached-skipped :
    (id : String) (r : EffectRow) (rows xs : List EffectRow)
    → is_applied r.status ≡ false
    → all (reached id (r ∷ rows)) xs ≡ true
    → all (reached id rows) xs ≡ true
reached-skipped id r rows [] out h = refl
reached-skipped id r rows (x ∷ xs) out h = ground (arith, reached-skipped id r rows xs out)

pub reached-none :
    (id : String) (xs : List EffectRow) → all (reached id []) xs ≡ true → stands id xs ≡ false
reached-none id [] h = refl
reached-none id (x ∷ xs) h = ground (arith, reached-none id xs)

any-insert_desc :
    (test : EffectRow → Bool) (r : EffectRow) (rows : List EffectRow)
    → any test (insert_desc r rows) ≡ (test r || any test rows)
any-insert_desc test r [] = refl
any-insert_desc test r (x ∷ rows) = ground (arith, any-insert_desc test r rows)

any-sort_desc :
    (test : EffectRow → Bool) (rows : List EffectRow) → any test (sort_desc rows) ≡ any test rows
any-sort_desc test [] = refl
any-sort_desc test (r ∷ rows) =
    any-insert_desc test r (sort_desc rows) ∙ ap (λ b. test r || b) (any-sort_desc test rows)

any-select_id :
    (id : String) (test : EffectRow → Bool) (rows : List EffectRow)
    → any test (select (λ (r : EffectRow). r.txn_id == id) rows)
      ≡ any (λ (r : EffectRow). r.txn_id == id && test r) rows
any-select_id id test [] = refl
any-select_id id test (r ∷ rows) = ground (arith, any-select_id id test rows)

-- Each standing row is reached by the fold over all the rows of its transaction.
pub reached-start :
    (id : String) (ys xs : List EffectRow)
    → all (reached id (sort_desc (select (λ (r : EffectRow). r.txn_id == id) (ys ++ xs)))) xs ≡ true
reached-start id ys [] = refl
reached-start id ys (x ∷ xs) =
    let test = λ (r : EffectRow). is_applied r.status && x.idx ==ℤ r.idx in
    let own = λ (r : EffectRow). r.txn_id == id && test r in
    let rest = rw (append_assoc ys (x ∷ []) xs) at (reached-start id (ys ++ x ∷ []) xs) in
    rw
      (
        rest,
        any-sort_desc test (select (λ (r : EffectRow). r.txn_id == id) (ys ++ x ∷ xs)),
        any-select_id id test (ys ++ x ∷ xs),
        any-append own ys (x ∷ xs),
      )
      (ground arith)
