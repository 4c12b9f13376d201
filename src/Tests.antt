-- ===== src/Tests.antt =====
-- A database and a mailbox as the outside world, a journal over them, and each theorem of the
-- development at concrete arguments.
mod Files
mod Replays
mod Memories
mod Sqls
mod Services
use pherix.Base.{
  any, ℕ, ◌+◌, ◌≤◌, ◌<◌, ℤ, pos, ◌≤ℤ◌, String, ◌≡◌, refl, ◌↔◌, ◌⊎◌, Bool, true, false, not, Option,
  none, some, List, [], ◌∷◌, ◌++◌, Dict, All, all, count, get, leb, ltb_ℤ, arith,
}
use pherix.Values.{Value, null, int, str, is_text, KeyPart, Key, Version, KeyEntry}
use pherix.Effects.{Effect, EffectStatus, Outcome, Digest, is_applied}
use pherix.Errors.{ok, is_ok, stage, commit, Reason}
use pherix.Transaction.{TxnState}
use pherix.Adapter.{Adapter, ToolSpec, Marks}
use pherix.Audit.{
  Audit, EffectRow, TxnRow, record_pending_approval, record_approval, approved_effect_ids,
}
use pherix.Audit.Approvals.{request_then_approve}
use pherix.Policy.Context.{Context, allow, deny, total_of}
use pherix.Policy.Caps.{Cap, Kind, applies_to}
use pherix.Policy.Engine.{
  Policy, allow_all, evaluate, try_evaluate, evaluate_journal, collect_verdicts,
}
use pherix.Policy.Agreement.{Agrees, evaluate-Agrees, evaluate_journal-Agrees}
use pherix.Policy.Budget.{charges, evaluate_journal-within}
use pherix.Policy.Readers.{RefundRule, sql_reader, order_key, refund_if_paid, refund_needs_paid}
use pherix.Policy.Tiers.{
  TrustTiers, new_tiers, at_least, tier_of, rank_of, admin_auto_approves,
  untrusted_gates_irreversible, tier_order,
}
use pherix.Policy.Tiers.Ladder.{IsValid, rank_of-total, tier_of-listed, approved_not_gated}
use pherix.Policy.Actors.{ActorCap, by_actor, per_actor_count_cap}
use pherix.Policy.Actors.Walks.{
  allows, at_journal, stage_allows, commit_allows, stage_then_commit, commit_verdict_by_total,
}
use pherix.Isolation.{abort, all_reads, all_writes, check_conflicts, last_my_write}
use pherix.Isolation.Diff.{NoneHits, IsLast}
use pherix.Isolation.Unmoved.{IsUnmoved, check_conflicts_iff, last_my_write_iff}
use pherix.Recovery.{Site, is_stuck, stands, resume_one, recover}
use pherix.Recovery.Landing.{RecordedAs, resume_one_lands}
use pherix.Recovery.Passes.{recover_idempotent}
use pherix.Runtime.State.{Env, State}
use pherix.Runtime.Unwind.{rollback, partial_unwind}
use pherix.Runtime.Unwind.Returns.{Dependable, partial_unwind_lands}
use pherix.Runtime.Keeps.{UndoKeeps}
use pherix.Runtime.Containment.{rollback_fires_nothing}
use pherix.Runtime.Closed.{Refuses, closed-Refuses}
use pherix.Runtime.Record.{record_tool_call, approve_irreversible}
use pherix.Runtime.Gate.{gate_blocks_firing}
use pherix.Runtime.Commit.{commit_txn}

-- One row of a table, and the number of mails sent.
record World : Type 0 where
  row : ℕ
  mails : ℕ

abbrev start : World
start = record { row = 5; mails = 0 }

abbrev marks : Marks
marks = record { read_keys = []; write_keys = []; snapshot = none }

abbrev row_of_payload : Value → ℕ
row_of_payload (int (pos n)) = n
row_of_payload _ = 0

abbrev sql : Adapter World
sql = record {
  ident = 0;
  name = "sql";
  supports_rollback = true;
  snapshot = λ e w.
      (ok (record { resource = "sql"; effect_index = e.index; payload = int (pos w.row) }), w);
  apply = λ e f w. f e w;
  restore = λ h w. (ok tt, record w { row = row_of_payload h.payload });
  transactional = true;
  begin_txn = λ w. (ok tt, w);
  commit_txn = λ w. (ok tt, w);
  rollback_txn = λ w. (ok tt, record w { row = 5 });
  read_version = λ k w. ok (Version.counter w.row);
  reads_committed_only = none;
  conn = some (λ k w. ok (some (str "paid")));
}

abbrev adapters : Dict (Adapter World)
adapters = ("sql", sql) ∷ []

abbrev send_mail : ToolSpec World
send_mail = record {
  name = "send";
  fn = λ e w. record { result = ok null; marks = marks; world = record w { mails = w.mails + 1 } };
  resource = "sql";
  reversible = false;
  compensator = none;
}

abbrev digest : Digest
digest = record { effect_id = λ t i f a. "e"; approval_token = λ t e. "token" }

abbrev env : Env World
env = record {
  adapters = adapters;
  registry = ("send", send_mail) ∷ [];
  policy = allow_all;
  digest = digest;
  isolation = abort;
  in_run_txn = false;
  dry_run = false;
  actor = none;
  active_actor = none;
  owner_thread = 1;
  thread = 1;
}

abbrev key_a : Key
key_a = KeyPart.text "t" ∷ KeyPart.number (pos 1) ∷ []

abbrev entry_at : ℕ → KeyEntry
entry_at n = record { resource = "sql"; key = key_a; version = Version.counter n }

-- An applied write of the row, which was 5.
abbrev write_row : Effect
write_row = record {
  txn_id = "t";
  index = pos 0;
  tool = "write";
  args = [];
  resource = "sql";
  reversible = true;
  effect_id = "e0";
  read_keys = [];
  write_keys = [];
  status = EffectStatus.applied;
  snapshot = some (record { resource = "sql"; effect_index = pos 0; payload = int (pos 5) });
  result = Outcome.returned null;
  compensator = none;
  actor = some "bot";
}

-- A mail that waits for the commit.
abbrev mail : Effect
mail = record write_row {
  index = pos 1;
  tool = "send";
  reversible = false;
  effect_id = "e1";
  status = EffectStatus.staged;
  snapshot = none;
  result = Outcome.staged_result "e1";
}

abbrev no_totals : Context
no_totals = record {
  journal = [];
  phase = stage;
  reader = none;
  totals = [];
  spent = λ store name period. pos 0;
  today = "2026-01-01";
}

abbrev in_state : TxnState → State World
in_state state = record {
  txn = record {
    txn_id = "t";
    state = state;
    effects = write_row ∷ mail ∷ [];
    replayed_from = none;
  };
  audit = record { transactions = []; effects = []; approvals = []; verdicts = []; conflicts = [] };
  approvals = [];
  finished = false;
  pending = false;
  context = no_totals;
  stage_verdicts = [];
  world = record start { row = 8 };
}

sql-Dependable : Dependable sql
sql-Dependable = record { restores = λ h w. refl; rolls_back = λ w. refl }

-- The mails are those that were sent before.
abbrev NoneSent : World → Type 0
NoneSent w = w.mails ≡ 0

sql-UndoKeeps : UndoKeeps NoneSent sql
sql-UndoKeeps = record { restore = λ h w p. p; rollback = λ w p. p }

gate_blocks_firing_example :
    (is_ok (commit_txn env (λ w. w) false (in_state TxnState.open_)).0 ≡ false)
    × NoneSent (commit_txn env (λ w. w) false (in_state TxnState.open_)).1.world
unfolding pherix.Runtime.Commit.blocked_effects pherix.Audit.approved_effect_ids
    pherix.Policy.Engine.approves_gate
gate_blocks_firing_example =
    gate_blocks_firing NoneSent env (λ w. w) (sql-UndoKeeps, tt) (λ w p. p)
      (in_state TxnState.open_) mail [] refl refl refl

rollback_fires_nothing_example : NoneSent (rollback env (in_state TxnState.open_)).1.world
rollback_fires_nothing_example =
    rollback_fires_nothing NoneSent env (sql-UndoKeeps, tt) (in_state TxnState.open_) refl

partial_unwind_lands_example :
    (s' : State World) × (partial_unwind env (in_state TxnState.staged) ≡ (ok tt, s'))
    × (s'.finished ≡ true)
    × ((s'.txn.state ≡ TxnState.stuck)
        ⊎ ((s'.txn.state ≡ TxnState.rolled_back)
            × (all (λ (e : Effect). not (is_applied e.status)) s'.txn.effects ≡ true)))
partial_unwind_lands_example =
    partial_unwind_lands env (sql-Dependable, tt) (in_state TxnState.staged) refl
      ((refl, tt), (tt, tt)) refl

-- At most two mails a transaction.
abbrev two_mails : Cap
two_mails = record { ident = 0; tool = "send"; max = pos 2; kind = Kind.count }

abbrev capped : Policy
capped = record allow_all { caps = two_mails ∷ [] }

abbrev mails : List Effect
mails = mail ∷ record mail { index = pos 2 } ∷ []

evaluate-Agrees_example :
    Agrees (try_evaluate capped mail stage no_totals) (evaluate capped mail stage no_totals)
evaluate-Agrees_example = evaluate-Agrees capped mail stage no_totals

evaluate_journal-Agrees_example :
    Agrees (collect_verdicts capped mails no_totals) (evaluate_journal capped mails no_totals)
evaluate_journal-Agrees_example = evaluate_journal-Agrees capped mails no_totals

abbrev spent_both : Context
spent_both = record no_totals { phase = commit; totals = (0, pos 2) ∷ [] }

evaluate_journal-within_example :
    (m : ℤ) × (charges two_mails mails ≡ ok m)
    × (total_of 0 spent_both.totals ≡ m)
    × (0 < count (applies_to two_mails) mails → m ≤ℤ pos 2)
unfolding evaluate_journal pherix.Policy.Caps.evaluate_cap pherix.Policy.Caps.contribution
    pherix.Policy.Caps.cap_add pherix.Base.◌+ℤ◌ pherix.Policy.Engine.accumulate
evaluate_journal-within_example =
    evaluate_journal-within capped two_mails refl ([], [], refl, tt, tt) mails no_totals spent_both
      refl

abbrev refund : RefundRule
refund = record {
  tool = "refund";
  table = "orders";
  id_arg = "order_id";
  pk_column = "id";
  status_column = "status";
  paid_value = "paid";
  resource = "sql";
}

abbrev refund_call : Effect
refund_call = record mail { tool = "refund"; args = ("order_id", int (pos 7)) ∷ [] }

abbrev reading : Context
reading = record no_totals { reader = some (sql_reader adapters start) }

refund_needs_paid_example :
    (order_id : Value) × (status : Value) × (get "order_id" refund_call.args ≡ some order_id)
    × (sql_reader adapters start "sql" (order_key refund order_id) ≡ ok status)
    × (is_text status "paid" ≡ true)
unfolding refund_if_paid pherix.Policy.Context.read sql_reader
refund_needs_paid_example =
    refund_needs_paid adapters start refund refund_call reading refl refl refl

abbrev tiers : TrustTiers
tiers = record {
  admin = "ann" ∷ [];
  trusted = "tom" ∷ [];
  untrusted = "uma" ∷ [];
  default_tier = "untrusted";
  unknown_tier = "untrusted";
}

tiers-IsValid : IsValid tiers
unfolding tier_order
tiers-IsValid = record {
  default_known = refl;
  unknown_known = refl;
  admin_trusted = refl;
  admin_untrusted = refl;
  trusted_untrusted = refl;
}

rank_of-total_example :
    (n : ℕ) × (rank_of tiers (some "tom") ≡ ok n)
    × (at_least tiers (some "tom") "admin" ≡ ok (leb 2 n))
unfolding new_tiers tier_order
rank_of-total_example =
    rank_of-total ("ann" ∷ []) ("tom" ∷ []) ("uma" ∷ []) "untrusted" "untrusted" tiers (some "tom")
      "admin" 2 refl refl

tier_of-listed_example :
    (pherix.Base.contains "tom" tiers.admin ≡ true → tier_of tiers (some "tom") ≡ "admin")
    × (pherix.Base.contains "tom" tiers.trusted ≡ true → tier_of tiers (some "tom") ≡ "trusted")
    × (pherix.Base.contains "tom" tiers.untrusted ≡ true → tier_of tiers (some "tom") ≡ "untrusted")
tier_of-listed_example = tier_of-listed tiers "tom" tiers-IsValid

abbrev by_ann : Effect
by_ann = record mail { actor = some "ann" }

approved_not_gated_example :
    untrusted_gates_irreversible tiers "trusted" by_ann no_totals ≡ ok allow
unfolding tier_order admin_auto_approves
approved_not_gated_example =
    approved_not_gated tiers by_ann no_totals "trusted" "admin" 1 2 refl refl (omega arith) refl

-- Two calls of `send` for each actor.
abbrev two_each : ActorCap
two_each = record { limits = []; default = some (pos 2); tool = some "send" }

stage_then_commit_example : commit_allows two_each no_totals mails mails ≡ true
unfolding stage_allows per_actor_count_cap
stage_then_commit_example = stage_then_commit two_each no_totals mails (tt, ((refl, tt), tt)) refl

commit_verdict_by_total_example :
    allows (
      per_actor_count_cap two_each mail
        (at_journal no_totals ([] ++ mail ∷ record mail { index = pos 2 } ∷ [])))
    ≡ not (
        ltb_ℤ (pos 2) (
          pos (
            count
              (by_actor two_each mail.actor)
              ([] ++ mail ∷ record mail { index = pos 2 } ∷ []))))
commit_verdict_by_total_example =
    commit_verdict_by_total two_each no_totals mail (pos 2) [] (record mail { index = pos 2 } ∷ [])
      refl refl tt (refl, tt)

-- A read of the row at version 5, and a later own write of it, which made 8.
abbrev read_then_write : List Effect
read_then_write =
    record write_row { read_keys = entry_at 5 ∷ [] }
    ∷ record write_row { index = pos 1; write_keys = entry_at 8 ∷ [] }
    ∷ []

check_conflicts_iff_example :
    (check_conflicts read_then_write adapters start ≡ ok [])
    ↔ All (IsUnmoved read_then_write adapters start) (all_reads read_then_write)
check_conflicts_iff_example = check_conflicts_iff read_then_write adapters start

last_my_write_iff_example :
    ((last_my_write read_then_write "sql" key_a ≡ some (Version.counter 8))
      ↔ IsLast "sql" key_a (all_writes read_then_write) (Version.counter 8))
    × ((last_my_write read_then_write "sql" key_a ≡ none)
        ↔ NoneHits "sql" key_a (all_writes read_then_write))
last_my_write_iff_example = last_my_write_iff "sql" key_a read_then_write (Version.counter 8)

-- A process died with the row written and the transaction staged.
abbrev left_open : TxnRow
left_open = record {
  txn_id = "t";
  state = TxnState.staged;
  replayed_from = none;
  dry_run = false;
  client_id = none;
}

abbrev standing_row : EffectRow
standing_row = record {
  txn_id = "t";
  idx = pos 0;
  effect_id = "e0";
  tool = "write";
  resource = "sql";
  reversible = true;
  status = EffectStatus.applied;
  args = [];
  snapshot = none;
  result = Outcome.returned null;
  read_keys = [];
  write_keys = [];
  actor = none;
}

abbrev crashed : Site World
crashed = record {
  audit = record {
    transactions = left_open ∷ [];
    effects = standing_row ∷ [];
    approvals = [];
    verdicts = [];
    conflicts = [];
  };
  world = start;
}

resume_one_lands_example :
    let (report, s') = resume_one digest adapters [] left_open crashed in
    RecordedAs "t" report.final_state s'.audit.transactions
    × (((report.final_state ≡ TxnState.stuck) × (any is_stuck report.effects ≡ true))
        ⊎ ((report.final_state ≡ TxnState.rolled_back) × (stands "t" s'.audit.effects ≡ false)))
resume_one_lands_example = resume_one_lands digest adapters [] left_open crashed

recover_idempotent_example :
    recover digest adapters [] (recover digest adapters [] crashed).1
    ≡ ([], (recover digest adapters [] crashed).1)
unfolding recover pherix.Recovery.resume_row
recover_idempotent_example = recover_idempotent digest adapters [] crashed (refl, tt)

-- The journal holds the request of another effect.
abbrev one_request : Audit
one_request = record {
  transactions = [];
  effects = [];
  approvals =
      record { txn_id = "t"; effect_id = "e2"; token = "other"; approved = false; approver = none }
      ∷ [];
  verdicts = [];
  conflicts = [];
}

request_then_approve_example :
    let (result, a') =
      record_approval "token" (some "ann") (record_pending_approval "t" "e1" "token" one_request) in
    (is_ok result ≡ true) × (pherix.Base.contains "e1" (approved_effect_ids "t" a') ≡ true)
request_then_approve_example = request_then_approve "t" "e1" "token" (some "ann") one_request refl

closed-Refuses_example :
    Refuses (record_tool_call env "send" []) (in_state TxnState.committed)
    × Refuses (approve_irreversible env "e1") (in_state TxnState.committed)
    × Refuses (commit_txn env (λ w. w) false) (in_state TxnState.committed)
    × Refuses (rollback env) (in_state TxnState.committed)
closed-Refuses_example =
    closed-Refuses env (λ w. w) false "send" [] "e1" (in_state TxnState.committed) refl
