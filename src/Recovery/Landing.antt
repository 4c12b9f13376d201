-- ===== src/Recovery/Landing.antt =====
-- Where a resumed fold lands, and what the durable journal then says.
use pherix.Base.{
  String, ◌≡◌, refl, ◌⊎◌, Bool, true, false, Option, none, some, List, [], ◌∷◌, Dict, All, any,
  any-append, all, map, arith, ◌==◌, if◌then◌else◌, Bool-cases, inl, inr,
}
use pherix.Values.{Value}
use pherix.Effects.{EffectStatus, Digest, is_applied}
use pherix.Errors.{Result, ok, err}
use pherix.Transaction.{TxnState}
use pherix.Adapter.{Adapter, ToolSpec}
use pherix.Audit.{with_state, EffectRow, TxnRow, update_transaction_state}
use pherix.Recovery.{
  EffectRecovery, Site, rolled_back_by_database, set_effect_status, stands, rows_of, is_stuck,
  runner_of, spec_of, resolve_compensator_name, undone, by_status, undo_row, fire_inverse,
  settle_inverse, resume_row, resume_rows, resume_one,
}
use pherix.Recovery.Reached.{
  compensate_rows, reached, reached-compensated, reached-skipped, reached-none, reached-start,
}

module _ {W : Type 0} (digest : Digest) (adapters : Dict (Adapter W))
    (registry : Dict (ToolSpec W)) where
  settle_inverse-effects :
      (id : String) (row : EffectRow) (r : Result Value) (s : Site W)
      → is_stuck (settle_inverse digest adapters registry id row r s).0 ≡ false
      → (settle_inverse digest adapters registry id row r s).1.audit.effects
        ≡ compensate_rows id row.idx s.audit.effects
  unfolding set_effect_status
  settle_inverse-effects id row (ok v) s h = refl
  settle_inverse-effects id row (err x) s h = cc

  fire_inverse-effects :
      (id : String) (row : EffectRow) (o : Option (String × ToolSpec W × Adapter W)) (s : Site W)
      → is_stuck (fire_inverse digest adapters registry id row o s).0 ≡ false
      → (fire_inverse digest adapters registry id row o s).1.audit.effects
        ≡ compensate_rows id row.idx s.audit.effects
  unfolding fire_inverse
  fire_inverse-effects id row none s h = cc
  fire_inverse-effects id row (some (name, spec, a)) s h =
      settle_inverse-effects id row _ (record s { world = _ }) h

  if-effects :
      (b : Bool) (es : List EffectRow) (p q : EffectRecovery × Site W)
      → (is_stuck p.0 ≡ false → p.1.audit.effects ≡ es)
      → (is_stuck q.0 ≡ false → q.1.audit.effects ≡ es)
      → is_stuck (if b then p else q).0 ≡ false
      → (if b then p else q).1.audit.effects ≡ es
  if-effects true es p q hp hq = hp
  if-effects false es p q hp hq = hq

  undo_row-effects :
      (id : String) (row : EffectRow) (s : Site W)
      → is_stuck (undo_row digest adapters registry id row s).0 ≡ false
      → (undo_row digest adapters registry id row s).1.audit.effects
        ≡ compensate_rows id row.idx s.audit.effects
  unfolding undo_row set_effect_status
  undo_row-effects id row s =
      let o = runner_of digest adapters registry (
        spec_of digest adapters registry
          (resolve_compensator_name digest adapters registry row.tool)) in
      if-effects row.reversible (compensate_rows id row.idx s.audit.effects)
        (undone digest adapters registry id row rolled_back_by_database s)
        (fire_inverse digest adapters registry id row o s) (λ h. refl)
        (fire_inverse-effects id row o s)

  by_status-effects :
      (status : EffectStatus) (s : Site W) (c : EffectRecovery) (u : EffectRecovery × Site W)
      (es : List EffectRow)
      → (is_stuck u.0 ≡ false → u.1.audit.effects ≡ es)
      → any is_stuck (by_status digest adapters registry status c u s).0 ≡ false
      → (by_status digest adapters registry status c u s).1.audit.effects
        ≡ (if is_applied status then es else s.audit.effects)
  by_status-effects EffectStatus.compensated s c u es h clean = refl
  by_status-effects EffectStatus.applied s c u es h clean = h (ground arith)
  by_status-effects EffectStatus.staged s c u es h clean = refl
  by_status-effects EffectStatus.gated s c u es h clean = refl
  by_status-effects EffectStatus.failed s c u es h clean = refl

  resume_row-effects :
      (id : String) (row : EffectRow) (s : Site W)
      → any is_stuck (resume_row digest adapters registry id row s).0 ≡ false
      → (resume_row digest adapters registry id row s).1.audit.effects ≡ (
          if is_applied row.status
          then compensate_rows id row.idx s.audit.effects
          else s.audit.effects)
  unfolding resume_row
  resume_row-effects id row s =
      by_status-effects row.status s _ (undo_row digest adapters registry id row s)
        (compensate_rows id row.idx s.audit.effects) (undo_row-effects id row s)

-- The row is one of another transaction, or in this state.
abbrev IsRecorded : String → TxnState → TxnRow → Type 0
IsRecorded id state x = ((x.txn_id == id) ≡ false) ⊎ (x.state ≡ state)

-- Every row of the transaction is in this state.
abbrev pub RecordedAs : String → TxnState → List TxnRow → Type 0
RecordedAs id state = All (IsRecorded id state)

with_state-IsRecorded :
    (id : String) (state : TxnState) (x : TxnRow) → IsRecorded id state (with_state id state x)
with_state-IsRecorded id state x = elim (Bool-cases (x.txn_id == id)) [
  | inl own ↦ inr (rw own refl)
  | inr other ↦ inl (rw (other, other) refl)
]

with_state-RecordedAs :
    (id : String) (state : TxnState) (xs : List TxnRow)
    → RecordedAs id state (map (with_state id state) xs)
with_state-RecordedAs id state [] = tt
with_state-RecordedAs id state (x ∷ xs) =
    (with_state-IsRecorded id state x, with_state-RecordedAs id state xs)

module _ {W : Type 0} (digest : Digest) (adapters : Dict (Adapter W))
    (registry : Dict (ToolSpec W)) where
  resume_row-reached :
      (id : String) (r : EffectRow) (rows : List EffectRow) (s : Site W)
      → any is_stuck (resume_row digest adapters registry id r s).0 ≡ false
      → all (reached id (r ∷ rows)) s.audit.effects ≡ true
      → all (reached id rows) (resume_row digest adapters registry id r s).1.audit.effects ≡ true
  resume_row-reached id r rows s clean h =
      let after = resume_row-effects digest adapters registry id r s clean in
      elim (Bool-cases (is_applied r.status)) [
        | inl active ↦ rw (after, active) (reached-compensated id r rows s.audit.effects h)
        | inr out ↦ rw (after, out) (reached-skipped id r rows s.audit.effects out h)
      ]

  resume_rows-reached :
      (id : String) (rows : List EffectRow) (s : Site W)
      → any is_stuck (resume_rows digest adapters registry id rows s).0 ≡ false
      → all (reached id rows) s.audit.effects ≡ true
      → all (reached id []) (resume_rows digest adapters registry id rows s).1.audit.effects ≡ true
  unfolding resume_rows
  resume_rows-reached id [] s clean h = h
  resume_rows-reached id (r ∷ rows) s clean h =
      let s' = (resume_row digest adapters registry id r s).1 in
      let split =
        any-append is_stuck (resume_row digest adapters registry id r s).0
          (resume_rows digest adapters registry id rows s').0 in
      let first : any is_stuck (resume_row digest adapters registry id r s).0 ≡ false =
        ground arith in
      let rest : any is_stuck (resume_rows digest adapters registry id rows s').0 ≡ false =
        ground arith in
      resume_rows-reached id rows s' rest (resume_row-reached id r rows s first h)

  -- Resuming the fold of a transaction reports STUCK, with an outcome that says so, or ROLLED_BACK
  -- with no effect of it left APPLIED in the durable journal; and the durable journal records every
  -- row of the transaction in the state that is reported.
  pub resume_one_lands :
      (t : TxnRow) (s : Site W)
      → let (report, s') = resume_one digest adapters registry t s in
        RecordedAs t.txn_id report.final_state s'.audit.transactions
        × (((report.final_state ≡ TxnState.stuck) × (any is_stuck report.effects ≡ true))
            ⊎ ((report.final_state ≡ TxnState.rolled_back)
                × (stands t.txn_id s'.audit.effects ≡ false)))
  unfolding resume_one rows_of update_transaction_state
  resume_one_lands t s =
      let rows = rows_of t.txn_id s.audit in
      let (outcomes, s') = resume_rows digest adapters registry t.txn_id rows s in
      (
        with_state-RecordedAs t.txn_id _ s'.audit.transactions,
        elim (Bool-cases (any is_stuck outcomes)) [
          | inl bad ↦ inl (rw bad refl, bad)
          | inr clean ↦ inr (
            rw clean refl,
            reached-none t.txn_id _ (
                resume_rows-reached t.txn_id rows s clean
                  (reached-start t.txn_id [] s.audit.effects)),
          )
        ],
      )
