-- ===== src/Session.antt =====
-- `agent_txn` of pherix/core/runtime.py with the construction of a `TxnContext`, and the open set of
-- the registry in pherix/core/isolation.py. The block of the client is a tree of the operations that
-- it calls, which branches on what each of them gives or raises.
pub mod DryRun
pub mod Retry
pub mod Restored
pub mod Speculation
pub mod Attempts
pub mod Conflicts
use pherix.Base.{
  ℕ, suc, String, Bool, true, false, not, ◌&&◌, ◌||◌, ◌==◌, Option, none, some, List, [], ◌∷◌, ◌++◌,
  Dict, select, if◌then◌else◌,
}
use pherix.Values.{Args}
use pherix.Effects.{Outcome, PendingApproval}
use pherix.Errors.{Result, ok, err, Exec, pure, raise, modify, skip, ◌>>=◌, ◌>>◌, Exc, stage}
use pherix.Transaction.{Transaction, TxnState}
use pherix.Adapter.{Adapter, unique}
use pherix.Audit.{Audit, record_transaction}
use pherix.Policy.Context.{Context, Spent}
use pherix.Policy.Readers.{sql_reader}
use pherix.Runtime.State.{Env, State, each_transactional}
use pherix.Runtime.Record.{record_tool_call, approve_irreversible}
use pherix.Runtime.Unwind.{rollback}
use pherix.Runtime.Commit.{commit_txn}

-- What a process has beside a transaction: the journal, the durable totals, the date, and the
-- transactions that are open.
pub record Process (W : Type 0) : Type 0 where
  pub world : W
  pub audit : Audit
  pub spent : Spent
  pub today : String
  pub open_contexts : List String
  -- how many transactions have begun
  pub drawn : ℕ

-- The body of a block.
pub data Agent : Type 0 where
  returns : Agent
  raises : Exc → Agent
  calls : String → Args → (Result Outcome → Agent) → Agent
  approves : String → (Result (Unit {0}) → Agent) → Agent
  commits : Bool → (Result (List PendingApproval) → Agent) → Agent
  rolls_back : (Result (Unit {0}) → Agent) → Agent

-- `uuid.uuid4().hex` of the n-th transaction, and the arguments that only the journal keeps.
pub record Naming : Type 0 where
  pub txn_id : ℕ → String
  pub client_id : Option String

-- `JournalRegistry.register` and `unregister`, on the ids of the open transactions.
unfoldable pub register : String → List String → List String
register txn_id open_ids = txn_id ∷ select (λ t. not (t == txn_id)) open_ids

unfoldable pub unregister : String → List String → List String
unregister txn_id open_ids = select (λ t. not (t == txn_id)) open_ids

module _ {W : Type 0} (env : Env W) (wait : W → W) where
  unfoldable pub run_agent : Agent → Exec (State W) (Unit {0})
  unfolding record_tool_call approve_irreversible commit_txn rollback
  run_agent returns s = (ok tt, s)
  run_agent (raises x) s = (err x, s)
  run_agent (calls tool args next) s =
      let (r, s') = record_tool_call env tool args s in run_agent (next r) s'
  run_agent (approves effect_id next) s =
      let (r, s') = approve_irreversible env effect_id s in run_agent (next r) s'
  run_agent (commits pending_approval next) s =
      let (r, s') = commit_txn env wait pending_approval s in run_agent (next r) s'
  run_agent (rolls_back next) s = let (r, s') = rollback env s in run_agent (next r) s'

  -- The commit at a clean exit.
  abbrev pub auto_commit : Exec (State W) (Unit {0})
  auto_commit s =
      if not s.finished && not s.pending then (do commit_txn env wait false; skip) s else (ok tt, s)

  -- `except Exception: ...; raise`
  abbrev pub on_exception : Exc → Exec (State W) (Unit {0})
  on_exception x s =
      if not s.finished && not s.pending then (do rollback env; raise x) s else (err x, s)

  abbrev pub catch_exception : Result (Unit {0}) → Exec (State W) (Unit {0})
  catch_exception (ok _) = skip
  catch_exception (err x) = on_exception x

  -- The `try` around the block of `agent_txn`.
  unfoldable pub run_block : Agent → Exec (State W) (Unit {0})
  unfolding run_agent commit_txn rollback
  run_block body s = let (r, s') = (do run_agent body; auto_commit) s in catch_exception r s'

module _ {W : Type 0} (env : Env W) (names : Naming) where
  -- `TxnContext.__init__`
  unfoldable pub new_context : Process W → State W
  unfolding record_transaction
  new_context p =
      let txn : Transaction = record {
        txn_id = names.txn_id p.drawn;
        state = TxnState.open_;
        effects = [];
        replayed_from = none;
      } in
      let context : Context = record {
        journal = [];
        phase = stage;
        reader = some (sql_reader env.adapters p.world);
        totals = [];
        spent = p.spent;
        today = p.today;
      } in
      record {
        txn = txn;
        audit = record_transaction txn env.dry_run names.client_id p.audit;
        approvals = [];
        finished = false;
        pending = false;
        context = context;
        stage_verdicts = [];
        world = p.world;
      }

  -- What the transaction leaves to the process.
  abbrev pub closed_process : Process W → State W → Process W
  closed_process p s = record {
    world = s.world;
    audit = s.audit;
    spent = s.context.spent;
    today = p.today;
    open_contexts =
        unregister (names.txn_id p.drawn) (register (names.txn_id p.drawn) p.open_contexts);
    drawn = suc p.drawn;
  }

  -- `for adapter in _unique(adapters): if ...: adapter.begin()`
  unfoldable pub begin_adapters : Exec W (Unit {0})
  begin_adapters = each_transactional (λ a. a.begin_txn) (unique env.adapters)

  -- A context manager over adapters that have begun.
  abbrev pub in_context {ℓ} : {A : Type ℓ} → Exec (State W) A → Exec (Process W) A
  in_context block p = let (r, s) = block (new_context p) in (r, closed_process p s)

  -- A raise of `begin` is before the registration and before the `try`.
  abbrev pub begun {ℓ} :
      {A : Type ℓ} → Exec (State W) A → Process W → Result (Unit {0}) × W → Result A × Process W
  begun block p (ok _, w) = in_context block (record p { world = w })
  begun block p (err x, w) = (err x, record p { world = w })

  unfoldable pub agent_txn : (W → W) → Agent → Exec (Process W) (Unit {0})
  unfolding begin_adapters new_context register unregister run_block
  agent_txn wait body p = begun (run_block env wait body) p (begin_adapters p.world)
