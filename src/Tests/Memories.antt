-- ===== src/Tests/Memories.antt =====
-- The memory of two agents, and the policy that guards it.
use pherix.Base.{pos, String, ◌≡◌, refl, true, false, Option, none, some, [], ◌∷◌, All, ◌==◌}
use pherix.Values.{Value, null, str, Args}
use pherix.Effects.{Effect, EffectStatus, Outcome}
use pherix.Errors.{Result, ok, stage}
use pherix.Policy.Context.{Context}
use pherix.Policy.Engine.{Policy, allow_all}
use pherix.Policy.Context.{ReadKey}
use pherix.Isolation.{check_conflicts}
use pherix.Runtime.Record.{marked}
use pherix.Memory.{Rows, Database, Texts, select_value, rollback_db}
use pherix.Memory.Handle.{Body}
use pherix.Memory.Store.{memory_tool, memory_adapter, restore, savepoint_name}
use pherix.Memory.Savepoints.{Within, handle_of, after_snapshot, restore_and_rollback}
use pherix.Memory.Reference.{reference, memory_tool_refines}
use pherix.Memory.Versions.{Runs, own_writes_no_conflict}
use pherix.Memory.Guard.{Guard, no_pii}
use pherix.Memory.Clean.{IsClean, passed-IsClean}

abbrev texts : Texts
texts = record { sha256 = λ s. s; json_dumps = λ v. "json"; index_text = λ i. "0" }

abbrev rows : Rows
rows =
    record { namespace = "ann"; mem_key = "plan"; value = "old" }
    ∷ record { namespace = "bob"; mem_key = "plan"; value = "his" }
    ∷ []

abbrev store : Database
store = record { rows = rows; begun = some rows; savepoints = [] }

abbrev effect : Effect
effect = record {
  txn_id = "t";
  index = pos 0;
  tool = "remember";
  args = ("value", str "new") ∷ [];
  resource = "memory";
  reversible = true;
  effect_id = "e0";
  read_keys = [];
  write_keys = [];
  status = EffectStatus.staged;
  snapshot = none;
  result = Outcome.missing;
  compensator = none;
  actor = none;
}

-- Recalls the plan, writes it, and forgets another key.
abbrev replan : Args → Body
replan args =
    Body.recalls "plan"
      (λ found. Body.remembers "plan" (str "new") (Body.forgets "note" (Body.returns null)))

restore_and_rollback_example :
    (restore texts
        (handle_of texts effect)
        (memory_tool texts "ann" replan effect (after_snapshot texts effect store)).world
      ≡ (ok tt, after_snapshot texts effect store))
    × ((after_snapshot texts effect store).rows ≡ rows)
    × (rollback_db (memory_tool texts "ann" replan effect (after_snapshot texts effect store)).world
        ≡ (ok tt, record { rows = rows; begun = none; savepoints = [] }))
unfolding savepoint_name
restore_and_rollback_example =
    restore_and_rollback texts effect rows store _ refl
      (Within.ran Within.at_once "ann" replan effect)

memory_tool_refines_example :
    let run = memory_tool texts "ann" replan effect store in
    let want = reference texts (replan effect.args) (λ k. select_value "ann" k rows) in
    (run.result ≡ want.0)
    × ((k : String) → select_value "ann" k run.world.rows ≡ want.1 k)
    × ((ns' k : String)
        → ("ann" == ns') ≡ false
        → select_value ns' k run.world.rows ≡ select_value ns' k rows)
    × (run.world.begun ≡ some rows)
    × (run.world.savepoints ≡ [])
memory_tool_refines_example = memory_tool_refines texts "ann" replan effect store

abbrev no_query : ReadKey → Database → Result (Option Value)
no_query key w = ok none

own_writes_no_conflict_example :
    check_conflicts
      (marked (memory_tool texts "ann" replan effect store).marks effect ∷ [])
      (("memory", memory_adapter texts "ann" 0 no_query) ∷ [])
      (memory_tool texts "ann" replan effect store).world
    ≡ ok []
own_writes_no_conflict_example =
    own_writes_no_conflict texts "ann" 0 no_query store
      (memory_tool texts "ann" replan effect store).world
      (marked (memory_tool texts "ann" replan effect store).marks effect ∷ [])
      (Runs.then_ran Runs.none_yet replan effect refl refl)

abbrev guard : Guard
guard = record {
  tools = "remember" ∷ [];
  value_arg = "value";
  patterns = record { label = "secret"; matches = λ text. text == "secret" } ∷ [];
}

abbrev guarded : Policy
guarded = record allow_all {
  rules = record { name = "no_pii"; fn = no_pii (λ v. "json") guard } ∷ [];
}

abbrev context : Context
context = record {
  journal = [];
  phase = stage;
  reader = none;
  totals = [];
  spent = λ store name period. pos 0;
  today = "2026-01-01";
}

passed-IsClean_example : All (IsClean (λ v. "json") guard) (effect ∷ [])
unfolding no_pii pherix.Policy.Engine.evaluate_journal
passed-IsClean_example =
    passed-IsClean (λ v. "json") guard guarded "no_pii" [] [] (effect ∷ []) context _ refl refl
