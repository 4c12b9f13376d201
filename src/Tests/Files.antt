-- ===== src/Tests/Files.antt =====
-- Transactions over the files of a directory: the filesystem adapter and the blocks of a session at
-- concrete arguments.
use pherix.Base.{
  ap, subst, Option, pos, String, ◌≡◌, refl, Bool, true, false, none, some, [], ◌∷◌, ◌==◌,
  if◌then◌else◌, arith,
}
use pherix.Values.{
  bool, int, dict, Entries, entry, no_entry, null, str, Args, Snapshot, KeyPart, Version,
}
use pherix.Effects.{Effect, EffectStatus, Outcome}
use pherix.Errors.{Result, ok, err, stage, raised, Conflict, isolation_conflict}
use pherix.Transaction.{TxnState}
use pherix.Adapter.{ToolSpec}
use pherix.Policy.Engine.{allow_all}
use pherix.Isolation.{abort, retry, resolve, check_conflicts}
use pherix.Runtime.State.{Env, State}
use pherix.Runtime.Restore.{Honours}
use pherix.Filesystem.{Disk, Layout, payload}
use pherix.Filesystem.Handle.{Body, read_version}
use pherix.Filesystem.Store.{cleanup_backup_root, snapshot, restore, fs_tool, fs_adapter}
use pherix.Filesystem.Restore.{view}
use pherix.Filesystem.Undo.{restore_undoes}
use pherix.Filesystem.Alias.{RestoresTo, two_writes, alias_survives}
use pherix.Filesystem.Promise.{fs_contract, fs-Honours, get-one, IsFsRegistry}
use pherix.Replay.Source.{Codec}
use pherix.Replay.Walk.{verify}
use pherix.Replay.{replay, new_replay}
use pherix.Replay.Lanes.{Matches}
use pherix.Replay.Restored.{Settled, replay_restores}
use pherix.Audit.{Audit, EffectRow}
use pherix.Proxy.{Gateway, Session, env_for, policy_for, field_of, replies, refused, refusal_code}
use pherix.Proxy.Server.{handle, tools_call, dispatch_commit, one_call, naming}
use pherix.Proxy.Protocol.{Echoes, handle_answers}
use pherix.Proxy.Speculation.{wire_dry_run_restores, refused_call_restores}
use pherix.Session.{
  begin_adapters, new_context, Process, Agent, Naming, agent_txn, unregister, run_agent, run_block,
}
use pherix.Session.Retry.{run_txn}
use pherix.Session.Attempts.{Bounded, run_txn-Bounded}
use pherix.Session.DryRun.{dry_run}
use pherix.Session.Restored.{failed_block_restores}
use pherix.Session.Conflicts.{conflict_restores}
use pherix.Session.Speculation.{dry_run_restores}

-- Every path below the root is its own file.
abbrev plain : Layout
plain = record {
  locate = λ p. p;
  is_inside = λ p. true;
  temp_dir = λ n. "tmp";
  effect_dir = λ root i. "effect";
  sha256 = λ content. content;
}

abbrev disk : Disk
disk = record {
  files = ("a", "old") ∷ [];
  backup_root = some "tmp";
  dirs = [];
  backups = [];
  drawn = 0;
}

abbrev all_canonical : String → Bool
all_canonical p = true

abbrev write_body : Args → Body
write_body args =
    Body.writes "a" "new" (λ _. Body.writes "b" "more" (λ _. Body.raises (raised "boom")))

abbrev write_effect : Effect
write_effect = record {
  txn_id = "t";
  index = pos 0;
  tool = "write";
  args = [];
  resource = "fs";
  reversible = true;
  effect_id = "e0";
  read_keys = [];
  write_keys = [];
  status = EffectStatus.staged;
  snapshot = none;
  result = Outcome.missing;
  compensator = none;
  actor = none;
}

-- What `snapshot` gives for the write, and the disk after it.
abbrev taken : Snapshot
taken = record { resource = "fs"; effect_index = pos 0; payload = payload "effect" [] }

abbrev disk_taken : Disk
disk_taken = record disk { dirs = "effect" ∷ [] }

snapshot-taken : snapshot plain write_effect disk ≡ (ok taken, disk_taken)
unfolding snapshot
snapshot-taken = refl

restore_undoes_example :
    (h' : Snapshot) × (w' : Disk) × ((fs_tool plain write_body
        (record write_effect { snapshot = some taken })
        disk_taken).marks.snapshot
      ≡ some h')
    × (restore plain h'
          (fs_tool plain write_body
            (record write_effect { snapshot = some taken })
            disk_taken).world
        ≡ (ok tt, w'))
    × ((p : String) → view w' p ≡ view disk p)
restore_undoes_example =
    restore_undoes plain all_canonical (λ p q _ _ same. same) write_effect write_body taken disk
      disk_taken (refl, λ _. (refl, λ _. tt)) snapshot-taken

-- Two spellings of one file.
abbrev dotted : Layout
dotted = record plain { locate = λ p. if p == "./a" then "a" else p }

snapshot-dotted : snapshot dotted write_effect disk ≡ (ok taken, disk_taken)
unfolding snapshot
snapshot-dotted = refl

alias_survives_example : RestoresTo dotted "a" "first" (
    fs_tool dotted
      (λ _. two_writes "a" "first" "./a" "second")
      (record write_effect { snapshot = some taken })
      disk_taken)
alias_survives_example =
    alias_survives dotted write_effect taken disk disk_taken "a" "first" "./a" "second" "old" refl
      refl refl refl refl snapshot-dotted

abbrev write_tool : ToolSpec Disk
write_tool = record {
  name = "write";
  fn = fs_tool plain write_body;
  resource = "fs";
  reversible = true;
  compensator = none;
}

abbrev env : Env Disk
env = record {
  adapters = ("fs", fs_adapter plain 0) ∷ [];
  registry = ("write", write_tool) ∷ [];
  policy = allow_all;
  digest = record { effect_id = λ t i f a. "e"; approval_token = λ t e. "token" };
  isolation = retry 3;
  in_run_txn = false;
  dry_run = false;
  actor = none;
  active_actor = none;
  owner_thread = 1;
  thread = 1;
}

abbrev process : Process Disk
process = record {
  world = disk;
  audit = record { transactions = []; effects = []; approvals = []; verdicts = []; conflicts = [] };
  spent = λ store name period. pos 0;
  today = "2026-01-01";
  open_contexts = [];
  drawn = 0;
}

abbrev names : Naming
names = record { txn_id = λ n. "t"; client_id = none }

-- The agent writes, and then fails.
abbrev failing : Agent
failing = Agent.calls "write" [] (λ _. Agent.raises (raised "stop"))

tools_are_fs : IsFsRegistry plain all_canonical (λ p q _ _ same. same) (("write", write_tool) ∷ [])
tools_are_fs name spec found =
    let (same, _) = get-one name "write" write_tool spec found in
    (write_body, rw (← same) refl, λ args. (refl, λ _. (refl, λ _. tt)))

fs-Honours_example : Honours (fs_contract plain) (view disk) env
fs-Honours_example =
    fs-Honours plain all_canonical (λ p q _ _ same. same) (view disk) env 0 refl tools_are_fs

failed_block_restores_example :
    (p' : Process Disk) × (agent_txn env names (λ w. w) failing process ≡ (err (raised "stop"), p'))
    × ((p : String) → view p'.world p ≡ view disk p)
    × (p'.open_contexts ≡ unregister "t" [])
unfolding run_agent
failed_block_restores_example =
    failed_block_restores (fs_contract plain) (view disk) env
      (fs-Honours plain all_canonical (λ p q _ _ same. same) (view disk) env 0 refl tools_are_fs)
      refl (λ w. w) names failing (raised "stop") process (λ _. tt) (λ p. refl) (λ w opened. refl)

dry_run_restores_example :
    view (dry_run env names (λ w. w) failing process).1.world "a" ≡ some "old"
dry_run_restores_example =
    dry_run_restores (fs_contract plain) (view disk) env
      (fs-Honours plain all_canonical (λ p q _ _ same. same) (view disk)
        (record env { dry_run = true; isolation = abort }) 0 refl tools_are_fs)
      refl names (λ w. w) failing process (λ _. tt) (λ p. refl) "a"

run_txn-Bounded_example : Bounded 3 process (run_txn env names (λ w. w) failing process)
run_txn-Bounded_example = run_txn-Bounded env names (λ w. w) failing process

-- The agent has read "a" with a content that the file no longer has.
abbrev stale_read : Effect
stale_read = record write_effect {
  read_keys =
      record { resource = "fs"; key = KeyPart.text "a" ∷ []; version = Version.digest "older" }
      ∷ [];
  status = EffectStatus.applied;
}

abbrev at_conflict : State Disk
at_conflict = record {
  txn = record {
    txn_id = "t";
    state = TxnState.open_;
    effects = stale_read ∷ [];
    replayed_from = none;
  };
  audit = process.audit;
  approvals = [];
  finished = false;
  pending = false;
  context = record {
    journal = [];
    phase = stage;
    reader = none;
    totals = [];
    spent = process.spent;
    today = process.today;
  };
  stage_verdicts = [];
  world = disk;
}

abbrev stale : Conflict
stale = record {
  resource = "fs";
  key = KeyPart.text "a" ∷ [];
  version_at_read = Version.digest "older";
  version_now = Version.digest "old";
  version_expected = Version.digest "older";
}

conflict_restores_example :
    (s' : State Disk) × (run_block env (λ w. w) Agent.returns at_conflict
      ≡ (err (isolation_conflict (stale ∷ [])), s'))
    × ((p : String) → view s'.world p ≡ view disk p)
    × (s'.txn.state ≡ TxnState.rolled_back)
unfolding run_agent check_conflicts fs_adapter read_version resolve pherix.Isolation.diff_read
    pherix.Isolation.last_my_write
conflict_restores_example =
    conflict_restores (fs_contract plain) (view disk) env
      (fs-Honours plain all_canonical (λ p q _ _ same. same) (view disk) env 0 refl tools_are_fs)
      refl (λ w. w) Agent.returns at_conflict stale [] tt
      (record {
        opened = refl;
        not_held = refl;
        undoable = record { latest = view disk; looks = λ p. refl; chain = refl };
        indexed = ((0, refl, omega arith), tt);
      })
      refl refl refl refl

abbrev codec : Codec
codec = record {
  comparator = λ tool. none;
  canonical_json = λ r. ok "null";
  b64decode = λ s. ok (str s);
}

abbrev written_row : EffectRow
written_row = record {
  txn_id = "t";
  idx = pos 0;
  effect_id = "e0";
  tool = "write";
  resource = "fs";
  reversible = true;
  status = EffectStatus.applied;
  args = [];
  snapshot = none;
  result = Outcome.returned null;
  read_keys = [];
  write_keys = [];
  actor = none;
}

-- The journal of a transaction that wrote.
abbrev written : Audit
written = record process.audit { effects = written_row ∷ [] }

write-Matches : Matches env written_row
unfolding fs_adapter
write-Matches lane spec a known found =
    let (same_tool, _) = get-one "write" "write" write_tool spec known in
    let (same, _) = get-one "fs" "fs" (fs_adapter plain 0) a found in
    (rw (← same_tool) refl, rw (← same) refl)

fs-Commits : (w : Disk) → (w' : Disk) × ((fs_adapter plain 0).commit_txn w ≡ (ok tt, w'))
unfolding fs_adapter cleanup_backup_root
fs-Commits w = (((fs_adapter plain 0).commit_txn w).1, ground arith)

replay_restores_example :
    Settled
      (fs_contract plain)
      (view disk)
      env
      (fs-Honours plain all_canonical (λ p q _ _ same. same) (view disk) env 0 refl tools_are_fs)
      (replay env codec verify true "t" written
        (new_replay "r" "t" at_conflict.context process.audit disk)).1
unfolding fs_adapter cleanup_backup_root pherix.Replay.Source.get_effects
replay_restores_example =
    replay_restores (fs_contract plain) (view disk) env
      (fs-Honours plain all_canonical (λ p q _ _ same. same) (view disk) env 0 refl tools_are_fs)
      codec verify true "r" "t" written at_conflict.context process.audit disk (fs-Commits, tt)
      (write-Matches, tt) (λ p. refl)

-- A server in front of the directory.
abbrev gateway : Gateway Disk
gateway = record { base = env; policies = []; default_policy = allow_all }

abbrev session : Session
session = record { identity = some "editor"; is_initialized = true }

abbrev speculative : Entries
speculative = entry "name" (str "write") (entry "_pherix_dry_run" (bool true) no_entry)

abbrev request : Entries
request = entry "jsonrpc" (str "2.0") (
    entry "id" (int (pos 1))
      (entry "method" (str "tools/call") (entry "params" (dict speculative) no_entry)))

handle_answers_example :
    Echoes (int (pos 1)) (handle gateway names (λ w. w) session request process)
unfolding field_of
handle_answers_example = handle_answers gateway names (λ w. w) request session process

wire_dry_run_restores_example :
    view (tools_call gateway names (λ w. w) session speculative process).1.world "a" ≡ some "old"
unfolding field_of policy_for
wire_dry_run_restores_example =
    wire_dry_run_restores (fs_contract plain) (view disk) gateway names (λ w. w) session
      (fs-Honours plain all_canonical (λ p q _ _ same. same) (view disk)
        (record (env_for gateway (some "editor")) { dry_run = true; isolation = abort }) 0 refl
        tools_are_fs)
      refl speculative process refl (λ p. refl) "a"

refused_call_restores_example :
    (o : Option String) × (p' : Process Disk) × (dispatch_commit gateway names
        (λ w. w)
        (some "editor")
        "write"
        no_entry
        process
      ≡ (replies (refused (refusal_code (raised "boom")) o), p'))
    × ((p : String) → view p'.world p ≡ view disk p)
unfolding policy_for begin_adapters new_context run_agent pherix.Runtime.State.guard_thread
    pherix.Runtime.State.guard_open pherix.Runtime.State.registered
    pherix.Runtime.State.resolve_adapter pherix.Policy.Engine.evaluate pherix.Transaction.add_effect
    fs_adapter pherix.Runtime.State.each_transactional fs_tool payload
refused_call_restores_example =
    refused_call_restores (fs_contract plain) (view disk) gateway names (λ w. w) (some "editor")
      (fs-Honours plain all_canonical (λ p q _ _ same. same) (view disk)
        (env_for gateway (some "editor")) 0 refl tools_are_fs)
      refl "write" no_entry (raised "boom") process (λ p. refl)
      (λ w opened.
        subst
          (λ w.
            (run_agent (env_for gateway (some "editor")) (λ w. w) (one_call "write" no_entry)
              (new_context (env_for gateway (some "editor"))
                (naming gateway names (λ w. w) (some "editor")) (record process { world = w }))).0
            ≡ err (raised "boom"))
          (ap (λ (r : Result (Unit {0}) × Disk). r.1) opened) refl)
