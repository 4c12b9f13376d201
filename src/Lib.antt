-- ===== src/Lib.antt =====
-- Pherix gives an agent's tool calls the shape of a transaction. A call becomes an effect of an
-- ordered journal; a reversible effect runs at once under a snapshot of its resource, an
-- irreversible one waits for the commit. The commit diffs the versions that the journal read,
-- walks the policy over the journal, holds the irreversible effects at a gate, runs those that
-- pass, and finalises; a failure on the way unwinds the journal from its end.
--
-- The files, and the code they are about (paths from the repository's root):
-- Values, Effects: the data of a call (pherix/core/effects.py).
-- Errors: exceptions as values, and actions `Exec S A` that give the state back beside the result
-- or the error, since what was written before a raise stays written.
-- Transaction: the state machine that owns the journal (pherix/core/transaction.py).
-- Policy: lists, rules and caps over an effect and over a journal, in the raise mode and in the
-- capture mode; the refund rule; trust tiers; the actor cap (pherix/core/policy.py). The durable
-- caps of pherix/core/envelope.py are two kinds of the one type Cap, and Envelope has the
-- increments that a commit flushes.
-- Adapter: the protocols of pherix/core/adapters/base.py and the tool of pherix/core/tools.py, as
-- records of actions on a state `W` of the outside world.
-- Isolation: the diff and the isolation levels (pherix/core/isolation.py); Diff
-- and Unmoved are proofs.
-- Audit: the tables of the durable journal and the statements on them (pherix/core/audit.py);
-- Audit/Approvals is about the approvals table.
-- Runtime: TxnContext (pherix/core/runtime.py). State has what it is given and what it keeps,
-- Record `record_tool_call` and `approve_irreversible`, Unwind `rollback` and `_partial_unwind`,
-- Commit `commit`. Unwind/Landing and Unwind/Returns, Keeps, Containment, Gate, Closed and
-- Restore, which has the contract of restoration, are proofs.
-- Filesystem: the filesystem adapter over the contents of the files below a root
-- (pherix/core/adapters/filesystem.py): Handle is `FsHandle`, Store the adapter; Tracks, Restore,
-- Undo, Alias and Promise are proofs.
-- Session: `agent_txn` over a block of the client, a tree of the calls that it makes
-- (pherix/core/runtime.py); Retry is `run_txn` (pherix/frontends/library.py), DryRun `dry_run`
-- (pherix/core/dry_run.py). Restored, Speculation, Attempts and Conflicts are proofs.
-- Memory: MemoryAdapter and MemoryHandle (pherix/core/adapters/memory.py) over SQLite's transactions
-- and savepoints; Guard is the policy of pherix/core/memory.py. Savepoints, Reference, Versions and
-- Clean are proofs.
-- Sql: SQLiteAdapter's versions and intents, and `execute_isolated` (pherix/core/adapters/sql.py); Diff,
-- Recorded and Intents are proofs.
-- Proxy: the gateway and the JSON-RPC session of an MCP client (pherix/frontends/proxy/gateway.py and
-- pherix/frontends/proxy/server.py); Protocol and Speculation are proofs.
-- Compensators: the catalog of pherix/compensators, as data over the methods of a client; Laws
-- has what the docstrings of the factories ask of the client, and Undo is a proof.
-- Replay: `replay` (pherix/core/replay.py). Source reads the rows, Walk is `_walk`; Rows, Lanes, Reuse,
-- Verdicts, Success and Restored are proofs.
-- Recovery: the sweep over the tables after a crash (pherix/core/recovery.py); Reached,
-- Landing and Passes are proofs.
-- Tests: each theorem at concrete arguments.
--
-- The runtime calls the policy with a reader bound to the world of the moment, and the adapters
-- through the record. Code of clients and services is a parameter: tools, rules, amounts and
-- predicates are functions that may raise, adapters are actions that may raise and may change the
-- world all the same. The hashes are a parameter, and so is what other transactions do while a
-- commit waits for them, to the world alone: the tables change by this transaction's own
-- statements while it commits. Effects are shared objects in the source; here the journal holds their
-- current values, and an effect is written back by its index. No definition runs on fuel: every
-- loop of the modelled code goes over a list, or counts the attempts of `run_txn`.
--
-- Not modelled: floats (amounts are integers), timestamps, JSON and SQL text, the structural diff of
-- a dry run in its result, the wait loop of the registry, the dump of SQL tables, the adapters of
-- other databases and of services, the transport and the texts of the proxy, and the inspector.
pub mod Base
pub mod Values
pub mod Effects
pub mod Errors
pub mod Transaction
pub mod Policy
pub mod Adapter
pub mod Isolation
pub mod Audit
pub mod Envelope
pub mod Filesystem
pub mod Runtime
pub mod Session
pub mod Memory
pub mod Sql
pub mod Proxy
pub mod Compensators
pub mod Replay
pub mod Recovery
pub mod Tests
