-- ===== src/Effects.antt =====
-- pherix/core/effects.py: one journalled tool call. The timestamp `ts` is left out, since no code
-- of the engine reads it. The hash behind `effect_id` is a parameter, `Digest`.
use pherix.Base.{ℤ, String, Bool, Option, none, List, []}
use pherix.Values.{Value, Args, KeyEntry, Snapshot}

pub data EffectStatus : Type 0 where
  staged applied compensated gated failed : EffectStatus

-- `e.result`: what a tool returned, or the sentinel of a staged call.
pub data Outcome : Type 0 where
  missing : Outcome
  returned : Value → Outcome
  staged_result : String → Outcome

pub record Effect : Type 0 where
  pub txn_id : String
  pub index : ℤ
  pub tool : String
  pub args : Args
  pub resource : String
  pub reversible : Bool
  pub effect_id : String
  pub read_keys : List KeyEntry
  pub write_keys : List KeyEntry
  pub status : EffectStatus
  pub snapshot : Option Snapshot
  pub result : Outcome
  pub compensator : Option String
  pub actor : Option String

-- sha256 over `json.dumps` of hashlib and json: `compute_effect_id` and `compute_approval_token`.
pub record Digest : Type 0 where
  pub effect_id : String → ℤ → String → Args → String
  pub approval_token : String → String → String

-- `Effect(...)` with the defaults of the dataclass and `__post_init__`.
unfoldable pub new_effect :
    Digest → String → ℤ → String → Args → String → Bool → Option String → Option String → Effect
new_effect d txn_id index tool args resource reversible compensator actor = record {
  txn_id = txn_id;
  index = index;
  tool = tool;
  args = args;
  resource = resource;
  reversible = reversible;
  effect_id = d.effect_id txn_id index tool args;
  read_keys = [];
  write_keys = [];
  status = EffectStatus.staged;
  snapshot = none;
  result = Outcome.missing;
  compensator = compensator;
  actor = actor;
}

-- `PendingApproval`, the handle of one gate-blocked effect.
pub record PendingApproval : Type 0 where
  pub txn_id : String
  pub effect_id : String
  pub token : String

abbrev pub is_staged : EffectStatus → Bool
is_staged EffectStatus.staged = Bool.true
is_staged _ = Bool.false

abbrev pub is_applied : EffectStatus → Bool
is_applied EffectStatus.applied = Bool.true
is_applied _ = Bool.false
