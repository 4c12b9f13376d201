-- ===== src/Recovery/Passes.antt =====
-- One recovery pass after another.
use pherix.Base.{
  ℤ, String, ◌≡◌, refl, ◌∙◌, ap, Bool, true, false, not, ◌||◌, Option, none, some, List, [], ◌∷◌,
  Dict, all, All, map, select, arith, contains, eq_iff, eq_refl, if◌then◌else◌,
}
use pherix.Effects.{EffectStatus, Digest}
use pherix.Values.{Value}
use pherix.Errors.{Result, ok, err}
use pherix.Transaction.{TxnState}
use pherix.Adapter.{Adapter, ToolSpec}
use pherix.Audit.{with_state, EffectRow, TxnRow, update_transaction_state}
use pherix.Recovery.{
  EffectRecovery, TxnRecovery, Site, with_status, set_effect_status, stands, is_mid_flight,
  find_mid_flight, rows_of, runner_of, spec_of, resolve_compensator_name, Action, fired,
  rolled_back_by_database, undone, by_status, undo_row, fire_inverse, settle_inverse, resume_row,
  resume_rows, resume_one, resume_all, recover,
}

-- Compensating a row leaves no more effects standing than there were.
stands-compensated :
    (t id : String) (idx : ℤ) (rows : List EffectRow)
    → stands t (map (with_status id idx EffectStatus.compensated) rows) ≡ true
    → stands t rows ≡ true
stands-compensated t id idx [] h = h
stands-compensated t id idx (row ∷ rows) h = ground (arith, stands-compensated t id idx rows)

-- The pass has touched statuses alone, and only to compensate.
pub record Shrinks {W : Type 0} (s s' : Site W) : Type 0 where
  pub transactions : s'.audit.transactions ≡ s.audit.transactions
  pub standing : (t : String) → stands t s'.audit.effects ≡ true → stands t s.audit.effects ≡ true

module _ {W : Type 0} (digest : Digest) (adapters : Dict (Adapter W))
    (registry : Dict (ToolSpec W)) where
  Shrinks-same : (s s' : Site W) → s'.audit ≡ s.audit → Shrinks s s'
  Shrinks-same s s' same = record {
    transactions = ap (λ a. a.transactions) same;
    standing = λ t h. rw same at h;
  }

  undone-Shrinks :
      (id : String) (row : EffectRow) (action : Action) (s s' : Site W)
      → s'.audit ≡ s.audit
      → Shrinks s (undone digest adapters registry id row action s').1
  unfolding set_effect_status
  undone-Shrinks id row action s s' same = record {
    transactions = ap (λ a. a.transactions) same;
    standing = λ t h. rw same at (stands-compensated t id row.idx s'.audit.effects h);
  }

  settle_inverse-Shrinks :
      (id : String) (row : EffectRow) (r : Result Value) (s s' : Site W)
      → s'.audit ≡ s.audit
      → Shrinks s (settle_inverse digest adapters registry id row r s').1
  settle_inverse-Shrinks id row (ok v) s s' same = undone-Shrinks id row fired s s' same
  settle_inverse-Shrinks id row (err x) s s' same = Shrinks-same s s' same

  fire_inverse-Shrinks :
      (id : String) (row : EffectRow) (o : Option (String × ToolSpec W × Adapter W)) (s : Site W)
      → Shrinks s (fire_inverse digest adapters registry id row o s).1
  unfolding fire_inverse
  fire_inverse-Shrinks id row none s = Shrinks-same s s refl
  fire_inverse-Shrinks id row (some (name, spec, a)) s = settle_inverse-Shrinks id row _ s _ refl

  if-Shrinks :
      (b : Bool) (s : Site W) (p q : EffectRecovery × Site W)
      → Shrinks s p.1
      → Shrinks s q.1
      → Shrinks s (if b then p else q).1
  if-Shrinks true s p q hp hq = hp
  if-Shrinks false s p q hp hq = hq

  undo_row-Shrinks :
      (id : String) (row : EffectRow) (s : Site W)
      → Shrinks s (undo_row digest adapters registry id row s).1
  unfolding undo_row resolve_compensator_name
  undo_row-Shrinks id row s =
      if-Shrinks row.reversible s _ _ (undone-Shrinks id row rolled_back_by_database s s refl) (
        fire_inverse-Shrinks id row
          (runner_of digest adapters registry (
            spec_of digest adapters registry
              (resolve_compensator_name digest adapters registry row.tool)))
          s)

  by_status-Shrinks :
      (status : EffectStatus) (s : Site W) (c : EffectRecovery) (u : EffectRecovery × Site W)
      → Shrinks s u.1
      → Shrinks s (by_status digest adapters registry status c u s).1
  by_status-Shrinks EffectStatus.compensated s c u h = Shrinks-same s s refl
  by_status-Shrinks EffectStatus.applied s c u h = h
  by_status-Shrinks EffectStatus.staged s c u h = Shrinks-same s s refl
  by_status-Shrinks EffectStatus.gated s c u h = Shrinks-same s s refl
  by_status-Shrinks EffectStatus.failed s c u h = Shrinks-same s s refl

  resume_row-Shrinks :
      (id : String) (row : EffectRow) (s : Site W)
      → Shrinks s (resume_row digest adapters registry id row s).1
  unfolding resume_row
  resume_row-Shrinks id row s =
      by_status-Shrinks row.status s _ (undo_row digest adapters registry id row s)
        (undo_row-Shrinks id row s)

  resume_rows-Shrinks :
      (id : String) (rows : List EffectRow) (s : Site W)
      → Shrinks s (resume_rows digest adapters registry id rows s).1
  unfolding resume_rows
  resume_rows-Shrinks id [] s = Shrinks-same s s refl
  resume_rows-Shrinks id (row ∷ rows) s =
      let s' = (resume_row digest adapters registry id row s).1 in
      let here = resume_row-Shrinks id row s in
      let rest = resume_rows-Shrinks id rows s' in
      record {
        transactions = rest.transactions ∙ here.transactions;
        standing = λ t h. here.standing t (rest.standing t h);
      }

-- Every transaction left mid-flight is one of `ids`.
abbrev is_due : List String → List EffectRow → TxnRow → Bool
is_due ids rows t = not (is_mid_flight rows t) || contains t.txn_id ids

due-more :
    (id : String) (ids : List String) (rows : List EffectRow) (ts : List TxnRow)
    → all (is_due ids rows) ts ≡ true
    → all (is_due (id ∷ ids) rows) ts ≡ true
due-more id ids rows [] h = refl
due-more id ids rows (t ∷ ts) h = ground (arith, due-more id ids rows ts)

abbrev ids_of : List TxnRow → List String
ids_of ts = map (λ (t : TxnRow). t.txn_id) ts

due-cons :
    (rows : List EffectRow) (t : TxnRow) (ts found : List TxnRow) (mid : Bool)
    → is_mid_flight rows t ≡ mid
    → all (is_due (ids_of found) rows) ts ≡ true
    → all (is_due (ids_of (if mid then t ∷ found else found)) rows) (t ∷ ts) ≡ true
due-cons rows t ts found true e rest =
    let more = due-more t.txn_id (ids_of found) rows ts rest in
    let self = eq_refl t.txn_id in ground (arith, more, self)
due-cons rows t ts found false e rest = ground (arith, rest)

due-start :
    (rows : List EffectRow) (ts : List TxnRow)
    → all (is_due (ids_of (select (is_mid_flight rows) ts)) rows) ts ≡ true
due-start rows [] = refl
due-start rows (t ∷ ts) =
    due-cons rows t ts (select (is_mid_flight rows) ts) (is_mid_flight rows t) refl
      (due-start rows ts)

due-resumed :
    (id : String) (ids : List String) (rows rows' : List EffectRow) (ts : List TxnRow)
    → ((t : String) → stands t rows' ≡ true → stands t rows ≡ true)
    → all (is_due (id ∷ ids) rows) ts ≡ true
    → all (is_due ids rows') (map (with_state id TxnState.rolled_back) ts) ≡ true
due-resumed id ids rows rows' [] shrinks h = refl
due-resumed id ids rows rows' (t ∷ ts) shrinks h =
    let fewer = shrinks t.txn_id in
    ground (arith, due-resumed id ids rows rows' ts shrinks, fewer, eq_iff id t.txn_id)

due-none :
    (rows : List EffectRow) (ts : List TxnRow)
    → all (is_due [] rows) ts ≡ true
    → select (is_mid_flight rows) ts ≡ []
due-none rows [] h = refl
due-none rows (t ∷ ts) h = ground (arith, due-none rows ts)

module _ {W : Type 0} (digest : Digest) (adapters : Dict (Adapter W))
    (registry : Dict (ToolSpec W)) where
  abbrev Due : List TxnRow → Site W → Type 0
  Due ts s = all (is_due (ids_of ts) s.audit.effects) s.audit.transactions ≡ true

  resume_one-Due :
      (t : TxnRow) (ts : List TxnRow) (s : Site W)
      → Due (t ∷ ts) s
      → (resume_one digest adapters registry t s).0.final_state ≡ TxnState.rolled_back
      → Due ts (resume_one digest adapters registry t s).1
  unfolding resume_one update_transaction_state
  resume_one-Due t ts s due clean =
      let rows = rows_of t.txn_id s.audit in
      let pass = resume_rows-Shrinks digest adapters registry t.txn_id rows s in
      rw (clean, pass.transactions)
        (due-resumed t.txn_id (ids_of ts) s.audit.effects
          (resume_rows digest adapters registry t.txn_id rows s).1.audit.effects
          s.audit.transactions pass.standing due)

  -- No transaction of the report ended STUCK.
  abbrev pub IsClean : List TxnRecovery → Type 0
  IsClean = All (λ r. r.final_state ≡ TxnState.rolled_back)

  resume_all-Due :
      (ts : List TxnRow) (s : Site W)
      → Due ts s
      → IsClean (resume_all digest adapters registry ts s).0
      → Due [] (resume_all digest adapters registry ts s).1
  unfolding resume_all
  resume_all-Due [] s due clean = due
  resume_all-Due (t ∷ ts) s due (first, rest) =
      resume_all-Due ts (resume_one digest adapters registry t s).1
        (resume_one-Due t ts s due first) rest

  -- Recovery is idempotent: after a pass that left no transaction STUCK, another pass finds none
  -- mid-flight, and changes neither the tables nor the world.
  pub recover_idempotent :
      (s : Site W)
      → IsClean (recover digest adapters registry s).0
      → recover digest adapters registry (recover digest adapters registry s).1
        ≡ ([], (recover digest adapters registry s).1)
  unfolding recover find_mid_flight resume_all
  recover_idempotent s clean =
      let s' = (recover digest adapters registry s).1 in
      let due =
        resume_all-Due (find_mid_flight s.audit) s (due-start s.audit.effects s.audit.transactions)
          clean in
      rw (due-none s'.audit.effects s'.audit.transactions due) refl
