-- ===== src/Audit.antt =====
-- pherix/core/audit.py: the tables of the durable journal and the statements that the runtime and
-- the recovery run on them. Timestamps are left out; a table is the list of its rows in the order
-- of their rowid. Payloads are kept as values, so the dumping to JSON is not modelled.
pub mod Approvals
use pherix.Base.{
  ℤ, ◌==ℤ◌, String, Bool, true, false, not, ◌&&◌, Option, none, some, List, [], ◌∷◌, ◌++◌, ◌==◌,
  any, select, map, if◌then◌else◌,
}
use pherix.Values.{Args, KeyEntry, Snapshot}
use pherix.Effects.{Effect, EffectStatus, Outcome}
use pherix.Errors.{Conflict, Result, ok, err, key_error}
use pherix.Transaction.{Transaction, TxnState}
use pherix.Policy.Context.{PolicyVerdict}

pub record TxnRow : Type 0 where
  pub txn_id : String
  pub state : TxnState
  pub replayed_from : Option String
  pub dry_run : Bool
  pub client_id : Option String

-- A row of `effects`: the compensator's name is not a column.
pub record EffectRow : Type 0 where
  pub txn_id : String
  pub idx : ℤ
  pub effect_id : String
  pub tool : String
  pub resource : String
  pub reversible : Bool
  pub status : EffectStatus
  pub args : Args
  pub snapshot : Option Snapshot
  pub result : Outcome
  pub read_keys : List KeyEntry
  pub write_keys : List KeyEntry
  pub actor : Option String

pub record ApprovalRow : Type 0 where
  pub txn_id : String
  pub effect_id : String
  pub token : String
  -- `status`: PENDING or APPROVED
  pub approved : Bool
  pub approver : Option String

pub record Audit : Type 0 where
  pub transactions : List TxnRow
  pub effects : List EffectRow
  pub approvals : List ApprovalRow
  pub verdicts : List (String × PolicyVerdict)
  pub conflicts : List (String × Conflict)

unfoldable pub record_transaction : Transaction → Bool → Option String → Audit → Audit
record_transaction t dry_run client_id a =
    let row : TxnRow = record {
      txn_id = t.txn_id;
      state = t.state;
      replayed_from = t.replayed_from;
      dry_run = dry_run;
      client_id = client_id;
    } in
    record a { transactions = a.transactions ++ row ∷ [] }

abbrev pub with_state : String → TxnState → TxnRow → TxnRow
with_state txn_id state row = if row.txn_id == txn_id then record row { state = state } else row

unfoldable pub update_transaction_state : String → TxnState → Audit → Audit
update_transaction_state txn_id state a = record a {
  transactions = map (with_state txn_id state) a.transactions;
}

abbrev pub row_of : Effect → EffectRow
row_of e = record {
  txn_id = e.txn_id;
  idx = e.index;
  effect_id = e.effect_id;
  tool = e.tool;
  resource = e.resource;
  reversible = e.reversible;
  status = e.status;
  args = e.args;
  snapshot = e.snapshot;
  result = e.result;
  read_keys = e.read_keys;
  write_keys = e.write_keys;
  actor = e.actor;
}

unfoldable pub record_effect : Effect → Audit → Audit
record_effect e a = record a { effects = a.effects ++ row_of e ∷ [] }

-- `WHERE txn_id = ? AND idx = ?`
abbrev pub is_row : String → ℤ → EffectRow → Bool
is_row txn_id idx row = row.txn_id == txn_id && row.idx ==ℤ idx

abbrev updated : Effect → EffectRow → EffectRow
updated e row =
    if is_row e.txn_id e.index row
    then record row {
      status = e.status;
      snapshot = e.snapshot;
      result = e.result;
      read_keys = e.read_keys;
      write_keys = e.write_keys;
    }
    else row

unfoldable pub update_effect : Effect → Audit → Audit
update_effect e a = record a { effects = map (updated e) a.effects }

unfoldable pub record_verdicts : String → List PolicyVerdict → Audit → Audit
record_verdicts txn_id verdicts a = record a {
  verdicts = a.verdicts ++ map (λ v. (txn_id, v)) verdicts;
}

unfoldable pub record_conflicts : String → List Conflict → Audit → Audit
record_conflicts txn_id conflicts a = record a {
  conflicts = a.conflicts ++ map (λ c. (txn_id, c)) conflicts;
}

-- The primary key of `approvals`.
abbrev pub is_request : String → String → ApprovalRow → Bool
is_request txn_id effect_id row = row.txn_id == txn_id && row.effect_id == effect_id

-- The upsert: on a conflict only `requested_at` changes, which is not modelled.
unfoldable pub record_pending_approval : String → String → String → Audit → Audit
record_pending_approval txn_id effect_id token a =
    let row : ApprovalRow = record {
      txn_id = txn_id;
      effect_id = effect_id;
      token = token;
      approved = false;
      approver = none;
    } in
    if any (is_request txn_id effect_id) a.approvals
    then a
    else record a { approvals = a.approvals ++ row ∷ [] }

abbrev pub approve_row : String → Option String → ApprovalRow → ApprovalRow
approve_row token approver row =
    if row.token == token && not row.approved
    then record row { approved = true; approver = approver }
    else row

abbrev has_token : String → ApprovalRow → Bool
has_token token row = row.token == token

-- The row that `SELECT * ... WHERE token = ?` fetches first.
unfoldable pub row_with_token : String → List ApprovalRow → Option ApprovalRow
row_with_token token [] = none
row_with_token token (row ∷ rows) =
    if has_token token row then some row else row_with_token token rows

unfoldable pub record_approval : String → Option String → Audit → Result ApprovalRow × Audit
unfolding row_with_token
record_approval token approver a = elim (row_with_token token a.approvals) [
  | none ↦ (err (key_error token), a)
  | some row ↦ if row.approved then (ok row, a) else (
    ok (approve_row token approver row),
    record a { approvals = map (approve_row token approver) a.approvals },
  )
]

-- The set of the approved effects of a transaction, as the list of its members.
unfoldable pub approved_effect_ids : String → Audit → List String
approved_effect_ids txn_id a =
    map (λ (row : ApprovalRow). row.effect_id)
      (select (λ (row : ApprovalRow). row.txn_id == txn_id && row.approved) a.approvals)
