-- ===== src/Tests/Replays.antt =====
-- A replay of two effects over a row of a table and a mailbox.
use pherix.Base.{ℕ, ◌+◌, pos, ◌≡◌, refl, subst, get, true, false, none, some, List, [], ◌∷◌}
use pherix.Values.{Value, null, int, str, Version}
use pherix.Effects.{Effect, EffectStatus, Outcome}
use pherix.Errors.{ok, stage}
use pherix.Transaction.{TxnState}
use pherix.Adapter.{Adapter, ToolSpec, Marks}
use pherix.Audit.{Audit, EffectRow}
use pherix.Policy.Context.{Context}
use pherix.Policy.Engine.{allow_all}
use pherix.Isolation.{abort}
use pherix.Runtime.State.{Env}
use pherix.Replay.Source.{Codec}
use pherix.Replay.Walk.{verify, reconstruct, Replaying}
use pherix.Replay.{source_rows, replay, new_replay}
use pherix.Replay.Reuse.{replay_refires_nothing}
use pherix.Replay.Verdicts.{Answers, Each}
use pherix.Replay.Success.{verify_success}

-- One row of a table, and the number of mails sent.
record World : Type 0 where
  row : ℕ
  mails : ℕ

abbrev row_of_payload : Value → ℕ
row_of_payload (int (pos n)) = n
row_of_payload _ = 0

abbrev marks : Marks
marks = record { read_keys = []; write_keys = []; snapshot = none }

abbrev sql : Adapter World
sql = record {
  ident = 0;
  name = "sql";
  supports_rollback = true;
  snapshot = λ e w.
      (ok (record { resource = "sql"; effect_index = e.index; payload = int (pos w.row) }), w);
  apply = λ e f w. f e w;
  restore = λ h w. (ok tt, record w { row = row_of_payload h.payload });
  transactional = true;
  begin_txn = λ w. (ok tt, w);
  commit_txn = λ w. (ok tt, w);
  rollback_txn = λ w. (ok tt, record w { row = 5 });
  read_version = λ k w. ok (Version.counter w.row);
  reads_committed_only = none;
  conn = none;
}

abbrev write : ToolSpec World
write = record {
  name = "write";
  fn = λ e w. record { result = ok null; marks = marks; world = record w { row = 8 } };
  resource = "sql";
  reversible = true;
  compensator = none;
}

abbrev send : ToolSpec World
send = record {
  name = "send";
  fn = λ e w. record { result = ok null; marks = marks; world = record w { mails = w.mails + 1 } };
  resource = "sql";
  reversible = false;
  compensator = none;
}

abbrev env : Env World
env = record {
  adapters = ("sql", sql) ∷ [];
  registry = ("write", write) ∷ ("send", send) ∷ [];
  policy = allow_all;
  digest = record { effect_id = λ t i f a. "e"; approval_token = λ t e. "token" };
  isolation = abort;
  in_run_txn = false;
  dry_run = false;
  actor = none;
  active_actor = none;
  owner_thread = 1;
  thread = 1;
}

abbrev codec : Codec
codec = record {
  comparator = λ tool. none;
  canonical_json = λ r. ok "null";
  b64decode = λ s. ok (str s);
}

abbrev written : EffectRow
written = record {
  txn_id = "t";
  idx = pos 0;
  effect_id = "e0";
  tool = "write";
  resource = "sql";
  reversible = true;
  status = EffectStatus.applied;
  args = [];
  snapshot = none;
  result = Outcome.returned null;
  read_keys = [];
  write_keys = [];
  actor = some "bot";
}

abbrev sent : EffectRow
sent = record written { idx = pos 1; effect_id = "e1"; tool = "send"; reversible = false }

abbrev source : Audit
source = record {
  transactions = [];
  effects = sent ∷ written ∷ [];
  approvals = [];
  verdicts = [];
  conflicts = [];
}

abbrev target : Audit
target = record source { effects = [] }

abbrev context : Context
context = record {
  journal = [];
  phase = stage;
  reader = none;
  totals = [];
  spent = λ store name period. pos 0;
  today = "2026-01-01";
}

abbrev replaying : Replaying World
replaying = new_replay "r" "t" context target (record { row = 5; mails = 0 })

-- The mails are those that were sent before.
abbrev NoneSent : World → Type 0
NoneSent w = w.mails ≡ 0

replay_refires_nothing_example :
    NoneSent (replay env codec reconstruct false "t" source replaying).1.run.world
unfolding pherix.Replay.Source.get_effects new_replay
replay_refires_nothing_example =
    replay_refires_nothing NoneSent env
      (
        record {
          snapshot = λ e w p. p;
          restore = λ h w p. p;
          begins = λ w p. p;
          commits = λ w p. p;
          rolls_back = λ w p. p;
        },
        tt,
      )
      codec reconstruct false "t" source replaying
      (
        (λ lane spec a e w known found p. quiet spec a e w known found p),
        ((λ lane spec a e w known found p. cc), tt),
      )
      refl
  where
    quiet :
        (spec : ToolSpec World) (a : Adapter World) (e : Effect) (w : World)
        → get "write" env.registry ≡ some spec
        → get "sql" env.adapters ≡ some a
        → NoneSent w
        → NoneSent (a.apply e spec.fn w).world
    quiet spec a e w known found p =
        let same_tool : write ≡ spec = cc in
        let same_adapter : sql ≡ a = cc in
        subst (λ (b : Adapter World). NoneSent (b.apply e spec.fn w).world) same_adapter
          (subst (λ (t : ToolSpec World). NoneSent (t.fn e w).world) same_tool p)

abbrev finished : Replaying World
finished = (replay env codec verify true "t" source replaying).1

verify_success_example :
    (effects : List EffectRow) × (source_rows codec "t" source ≡ ok effects)
    × Each (Answers codec) effects finished.outcomes
    × (finished.isolation_conflicts ≡ [])
    × (finished.run.txn.state ≡ TxnState.committed)
unfolding replay new_replay pherix.Runtime.State.each_transactional pherix.Runtime.State.save_effect
    pherix.Runtime.State.move_to
verify_success_example = verify_success env codec "t" source replaying finished refl refl refl
