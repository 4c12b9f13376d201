-- ===== src/Recovery.antt =====
-- pherix/core/recovery.py: the backward fold resumed after a crash, over the tables of the durable
-- journal. A row of the model has all its columns, so the errors of a corrupt journal are left out,
-- and so are the messages of a report.
pub mod Passes
pub mod Reached
pub mod Landing
use pherix.Base.{
  ℤ, negsuc, ◌==ℤ◌, ltb_ℤ, String, Bool, true, false, not, ◌&&◌, Option, none, some, List, [], ◌∷◌,
  ◌++◌, Dict, get, any, map, select, ◌==◌, if◌then◌else◌,
}
use pherix.Values.{Value}
use pherix.Effects.{Effect, EffectStatus, Digest, is_applied, new_effect}
use pherix.Errors.{Result, ok, err}
use pherix.Transaction.{TxnState}
use pherix.Adapter.{Adapter, ToolSpec}
use pherix.Audit.{Audit, EffectRow, TxnRow, is_row, update_transaction_state}

-- `EffectRecovery.action`
pub data Action : Type 0 where
  fired rolled_back_by_database already_compensated no_compensator compensator_raised : Action

pub record EffectRecovery : Type 0 where
  pub effect_id : String
  pub index : ℤ
  pub tool : String
  pub reversible : Bool
  pub action : Action

abbrev pub is_stuck : EffectRecovery → Bool
is_stuck r = elim r.action [
  | fired ↦ false
  | rolled_back_by_database ↦ false
  | already_compensated ↦ false
  | no_compensator ↦ true
  | compensator_raised ↦ true
]

pub record TxnRecovery : Type 0 where
  pub txn_id : String
  pub prior_state : TxnState
  pub final_state : TxnState
  pub effects : List EffectRecovery

-- `_RECOVERABLE_STATES`
abbrev pub is_recoverable : TxnState → Bool
is_recoverable TxnState.open_ = true
is_recoverable TxnState.staged = true
is_recoverable TxnState.partial = true
is_recoverable TxnState.stuck = true
is_recoverable _ = false

-- What recovery works on: the tables, and the outside world.
pub record Site (W : Type 0) : Type 0 where
  pub audit : Audit
  pub world : W

abbrev pub with_status : String → ℤ → EffectStatus → EffectRow → EffectRow
with_status txn_id idx status row =
    if is_row txn_id idx row then record row { status = status } else row

-- `_set_effect_status`
unfoldable pub set_effect_status : String → ℤ → EffectStatus → Audit → Audit
set_effect_status txn_id idx status a = record a {
  effects = map (with_status txn_id idx status) a.effects;
}

-- The transaction owns an APPLIED effect.
abbrev pub stands : String → List EffectRow → Bool
stands txn_id rows = any (λ (row : EffectRow). row.txn_id == txn_id && is_applied row.status) rows

abbrev pub is_mid_flight : List EffectRow → TxnRow → Bool
is_mid_flight rows t = is_recoverable t.state && stands t.txn_id rows

-- `_find_mid_flight`; the rows of the table are in the order of their creation.
unfoldable pub find_mid_flight : Audit → List TxnRow
find_mid_flight a = select (is_mid_flight a.effects) a.transactions

-- `ORDER BY idx DESC`
abbrev pub insert_desc : EffectRow → List EffectRow → List EffectRow
insert_desc row [] = row ∷ []
insert_desc row (r ∷ rows) =
    if ltb_ℤ r.idx row.idx then row ∷ r ∷ rows else r ∷ insert_desc row rows

abbrev pub sort_desc : List EffectRow → List EffectRow
sort_desc [] = []
sort_desc (row ∷ rows) = insert_desc row (sort_desc rows)

unfoldable pub rows_of : String → Audit → List EffectRow
rows_of txn_id a = sort_desc (select (λ (row : EffectRow). row.txn_id == txn_id) a.effects)

abbrev pub outcome : EffectRow → Action → EffectRecovery
outcome row action = record {
  effect_id = row.effect_id;
  index = row.idx;
  tool = row.tool;
  reversible = row.reversible;
  action = action;
}

module _ {W : Type 0} (digest : Digest) (adapters : Dict (Adapter W))
    (registry : Dict (ToolSpec W)) where
  -- `_resolve_compensator_name`
  unfoldable pub resolve_compensator_name : String → Option String
  resolve_compensator_name tool = elim (get tool registry) [
    | none ↦ none
    | some spec ↦ spec.compensator
  ]

  -- The compensator with the adapter that runs it, if all three lookups succeed.
  abbrev pub spec_of : Option String → Option (String × ToolSpec W)
  spec_of none = none
  spec_of (some name) = elim (get name registry) [ none ↦ none | some spec ↦ some (name, spec) ]

  abbrev pub runner_of : Option (String × ToolSpec W) → Option (String × ToolSpec W × Adapter W)
  runner_of none = none
  runner_of (some (name, spec)) = elim (get spec.resource adapters) [
    | none ↦ none
    | some a ↦ some (name, spec, a)
  ]

  abbrev pub undone : String → EffectRow → Action → Site W → EffectRecovery × Site W
  undone txn_id row action s = (
    outcome row action,
    record s { audit = set_effect_status txn_id row.idx EffectStatus.compensated s.audit },
  )

  abbrev pub settle_inverse : String → EffectRow → Result Value → Site W → EffectRecovery × Site W
  settle_inverse txn_id row (err x) s = (outcome row compensator_raised, s)
  settle_inverse txn_id row (ok v) s = undone txn_id row fired s

  unfoldable pub fire_inverse :
      String
      → EffectRow
      → Option (String × ToolSpec W × Adapter W)
      → Site W
      → EffectRecovery × Site W
  fire_inverse txn_id row none s = (outcome row no_compensator, s)
  fire_inverse txn_id row (some (name, spec, a)) s =
      let carrier =
        new_effect digest txn_id (negsuc 0) name row.args spec.resource false none none in
      let r = a.apply carrier spec.fn s.world in
      settle_inverse txn_id row r.result (record s { world = r.world })

  unfoldable pub undo_row : String → EffectRow → Site W → EffectRecovery × Site W
  unfolding fire_inverse resolve_compensator_name
  undo_row txn_id row s =
      if row.reversible
      then undone txn_id row rolled_back_by_database s
      else fire_inverse txn_id row (runner_of (spec_of (resolve_compensator_name row.tool))) s

  -- The tests on the status in the loop of `_resume_one`: `done` is what is noted of an effect that
  -- is compensated already, `undoing` what undoing an applied one gives.
  abbrev pub by_status :
      EffectStatus
      → EffectRecovery
      → EffectRecovery × Site W
      → Site W
      → List EffectRecovery × Site W
  by_status EffectStatus.compensated done undoing s = (done ∷ [], s)
  by_status EffectStatus.applied done undoing s = (undoing.0 ∷ [], undoing.1)
  by_status EffectStatus.staged done undoing s = ([], s)
  by_status EffectStatus.gated done undoing s = ([], s)
  by_status EffectStatus.failed done undoing s = ([], s)

  unfoldable pub resume_row : String → EffectRow → Site W → List EffectRecovery × Site W
  unfolding undo_row
  resume_row txn_id row s =
      by_status row.status (outcome row already_compensated) (undo_row txn_id row s) s

  unfoldable pub resume_rows : String → List EffectRow → Site W → List EffectRecovery × Site W
  resume_rows txn_id [] s = ([], s)
  resume_rows txn_id (row ∷ rows) s =
      let (first, s') = resume_row txn_id row s in
      let (rest, s'') = resume_rows txn_id rows s' in (first ++ rest, s'')

  abbrev pub final_of : List EffectRecovery → TxnState
  final_of outcomes = if any is_stuck outcomes then TxnState.stuck else TxnState.rolled_back

  unfoldable pub resume_one : TxnRow → Site W → TxnRecovery × Site W
  unfolding resume_rows rows_of
  resume_one t s =
      let (outcomes, s') = resume_rows t.txn_id (rows_of t.txn_id s.audit) s in
      let final = final_of outcomes in
      (
        record {
          txn_id = t.txn_id;
          prior_state = t.state;
          final_state = final;
          effects = outcomes;
        },
        record s' { audit = update_transaction_state t.txn_id final s'.audit },
      )

  unfoldable pub resume_all : List TxnRow → Site W → List TxnRecovery × Site W
  unfolding resume_one
  resume_all [] s = ([], s)
  resume_all (t ∷ ts) s =
      let (first, s') = resume_one t s in let (rest, s'') = resume_all ts s' in (first ∷ rest, s'')

  unfoldable pub recover : Site W → List TxnRecovery × Site W
  unfolding resume_all find_mid_flight
  recover s = resume_all (find_mid_flight s.audit) s
