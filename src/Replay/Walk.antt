-- ===== src/Replay/Walk.antt =====
-- `_walk` of pherix/core/replay.py: the forward fold over the rows of the source.
use pherix.Base.{
  ℤ, String, Bool, true, false, Option, none, some, List, [], ◌∷◌, ◌++◌, get, if◌then◌else◌,
}
use pherix.Effects.{Effect, EffectStatus, Outcome, new_effect, is_applied}
use pherix.Errors.{
  Result, ok, err, and_then, Exec, pure, lift, gets, modify, skip, ◌>>=◌, ◌>>◌, Conflict, stage,
  policy_violation, runtime_error,
}
use pherix.Transaction.{next_index, add_effect}
use pherix.Adapter.{Adapter, ToolSpec}
use pherix.Audit.{EffectRow, record_effect}
use pherix.Policy.Engine.{Policy, list_denial}
use pherix.Runtime.State.{Env, State, on_txn, on_audit, set_effect}
use pherix.Runtime.Record.{journalled, run_live}
use pherix.Replay.Source.{Codec, compare_results}

pub data Mode : Type 0 where
  verify reconstruct : Mode

abbrev pub is_verify : Mode → Bool
is_verify verify = true
is_verify reconstruct = false

-- `EffectOutcome.status`
pub data Verdict : Type 0 where
  match divergence applied skipped_idempotent skipped_non_applied : Verdict

pub record EffectOutcome : Type 0 where
  pub index : ℤ
  pub tool : String
  pub resource : String
  pub status : Verdict
  pub recorded_result : Outcome
  pub replayed_result : Outcome

-- `ReplayResult.status`
pub data ReplayStatus : Type 0 where
  success diverged failure : ReplayStatus

-- `ReplayResult`, beside what the replay works on.
pub record Replaying (W : Type 0) : Type 0 where
  pub run : State W
  pub status : ReplayStatus
  pub outcomes : List EffectOutcome
  pub divergences : List EffectOutcome
  pub isolation_conflicts : List Conflict

-- `Policy.check`: the lists alone.
unfoldable pub check : Policy → String → Result (Unit {0})
unfolding list_denial
check p tool = elim (list_denial p tool) [
  | none ↦ ok tt
  | some reason ↦ err (
      policy_violation (record {
        tool = tool;
        reason = reason;
        phase = stage;
        rule_name = none;
        effect_index = none;
      }))
]

abbrev pub outcome_of : Effect → Verdict → Outcome → Outcome → EffectOutcome
outcome_of e status recorded replayed = record {
  index = e.index;
  tool = e.tool;
  resource = e.resource;
  status = status;
  recorded_result = recorded;
  replayed_result = replayed;
}

abbrev pub is_divergence : Verdict → Bool
is_divergence divergence = true
is_divergence _ = false

module _ {W : Type 0} where
  -- An action on the transaction of a replay.
  abbrev pub on_run {ℓ} : {A : Type ℓ} → Exec (State W) A → Exec (Replaying W) A
  on_run m s = let (r, t) = m s.run in (r, record s { run = t })

  abbrev pub add_outcome : EffectOutcome → Replaying W → Replaying W
  add_outcome o s = record s { outcomes = s.outcomes ++ o ∷ [] }

  abbrev pub add_divergence : EffectOutcome → Replaying W → Replaying W
  add_divergence o s =
      if is_divergence o.status then record s { divergences = s.divergences ++ o ∷ [] } else s

-- What `_handle_irreversible` makes of the effect: reused, or a placeholder.
abbrev pub reused : EffectRow → Effect → Effect
reused src e =
    if is_applied src.status
    then record e { result = src.result; status = EffectStatus.applied }
    else record e { status = src.status }

abbrev pub reused_outcome : EffectRow → Effect → EffectOutcome
reused_outcome src e =
    if is_applied src.status
    then outcome_of e skipped_idempotent src.result src.result
    else outcome_of e skipped_non_applied src.result Outcome.missing

abbrev pub verdict_of : Bool → Verdict
verdict_of matched = if matched then match else divergence

module _ (codec : Codec) where
  -- How a run is judged: only `verify` compares.
  unfoldable pub judge : Mode → EffectRow → Effect × Outcome → Result EffectOutcome
  unfolding compare_results
  judge verify src (e, result) =
      and_then (compare_results codec src.tool src.result result)
        λ matched. ok (outcome_of e (verdict_of matched) src.result result)
  judge reconstruct src (e, result) = ok (outcome_of e applied src.result result)

module _ {W : Type 0} (env : Env W) where
  -- The effect of the replay's journal that stands for a row of the source.
  abbrev pub effect_for : EffectRow → Bool → Option String → State W → Effect
  effect_for src reversible compensator s =
      new_effect env.digest s.txn.txn_id (next_index s.txn) src.tool src.args src.resource
        reversible compensator src.actor

  -- `_handle_irreversible`
  unfoldable pub handle_irreversible : EffectRow → Exec (State W) EffectOutcome
  unfolding new_effect next_index add_effect record_effect
  handle_irreversible src = do
    e ← gets (effect_for src false none)
    on_txn (add_effect e)
    modify (set_effect (reused src e))
    modify (on_audit (record_effect (reused src e)))
    pure (reused_outcome src e)

  -- `_lookup_tool`
  unfoldable pub lookup_tool : String → Result (ToolSpec W)
  lookup_tool name = elim (get name env.registry) [
    | none ↦ err (runtime_error name)
    | some spec ↦ ok spec
  ]

  -- The reversible lane: the effect of the replay, and what it gave.
  unfoldable pub run_reversible : Adapter W → EffectRow → Exec (State W) (Effect × Outcome)
  unfolding check lookup_tool new_effect next_index run_live
  run_reversible a src = do
    lift (check env.policy src.tool)
    spec ← lift (lookup_tool src.tool)
    e ← gets (effect_for src true spec.compensator)
    journalled e
    result ← run_live a spec e
    pure (e, result)

  -- `adapters.get(src["resource"])`
  unfoldable pub adapter_for : EffectRow → Result (Adapter W)
  adapter_for src = elim (get src.resource env.adapters) [
    | none ↦ err (runtime_error src.resource)
    | some a ↦ ok a
  ]

module _ {W : Type 0} (env : Env W) (codec : Codec) where
  abbrev pub replay_reversible : Mode → Adapter W → EffectRow → Exec (Replaying W) (Unit {0})
  replay_reversible mode a src = do
    ran ← on_run (run_reversible env a src)
    o ← lift (judge codec mode src ran)
    modify (λ s. add_outcome o (add_divergence o s))

  abbrev pub replay_irreversible : EffectRow → Exec (Replaying W) (Unit {0})
  replay_irreversible src = do o ← on_run (handle_irreversible env src); modify (add_outcome o)

  -- One turn of `_walk`.
  unfoldable pub replay_effect : Mode → EffectRow → Exec (Replaying W) (Unit {0})
  unfolding adapter_for handle_irreversible run_reversible judge
  replay_effect mode src = do
    a ← lift (adapter_for env src)
    (λ s. if src.reversible then replay_reversible mode a src s else replay_irreversible src s)

  unfoldable pub walk_source : Mode → List EffectRow → Exec (Replaying W) (Unit {0})
  unfolding replay_effect
  walk_source mode [] = skip
  walk_source mode (src ∷ rest) = replay_effect mode src >> walk_source mode rest
