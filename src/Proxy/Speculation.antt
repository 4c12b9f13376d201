-- ===== src/Proxy/Speculation.antt =====
-- A dry run over the wire.
use pherix.Base.{ap, String, ◌≡◌, true, Option, none, some, ◌==ℕ◌, get}
use pherix.Values.{Entries}
use pherix.Effects.{Outcome}
use pherix.Errors.{Result, ok, err}
use pherix.Adapter.{ToolSpec}
use pherix.Isolation.{abort}
use pherix.Runtime.Restore.{Contract, Honours}
use pherix.Session.{Process, Naming}
use pherix.Session.Restored.{NeverCommits}
use pherix.Session.Speculation.{dry_run_restores}
use pherix.Errors.{Exc}
use pherix.Session.{begin_adapters, new_context, run_agent}
use pherix.Session.Restored.{failed_block_restores}
use pherix.Proxy.{
  replies, refused, refusal_code, Gateway, Session, Handled, env_for, field_of, object_or_empty,
  text_in,
}
use pherix.Proxy.Server.{
  dispatch_commit, opened_id, commit_reply, dispatch_dry_run, tools_call, named_call, known_tool,
  with_arguments, one_call, after_call, naming, wants_dry_run,
}

one_call-NeverCommits :
    (name : String) (arguments : Entries) → NeverCommits (one_call name arguments)
one_call-NeverCommits name arguments = after
  where
    after : (r : Result Outcome) → NeverCommits (after_call r)
    after (ok o) = tt
    after (err x) = tt

module _ {W X : Type 0} (c : Contract W X) (start : X) (g : Gateway W) (txn_ids : Naming)
    (wait : W → W) (s : Session)
    (honest : Honours c start (record (env_for g s.identity) { dry_run = true; isolation = abort }))
    (own : (g.base.thread ==ℕ g.base.owner_thread) ≡ true) where
  abbrev Looks : Handled × Process W → Type 0
  Looks r = c.At start r.1.world

  dispatch-Looks :
      (name : String) (arguments : Entries) (p : Process W)
      → c.At start p.world
      → Looks (dispatch_dry_run g txn_ids wait s.identity name arguments p)
  unfolding dispatch_dry_run
  dispatch-Looks name arguments p here =
      dry_run_restores c start (env_for g s.identity) honest own (naming g txn_ids wait s.identity)
        wait (one_call name arguments) p (one_call-NeverCommits name arguments) here

  arguments-Looks :
      (name : String) (params : Entries) (arguments : Option Entries) (p : Process W)
      → wants_dry_run params ≡ true
      → c.At start p.world
      → Looks (with_arguments g txn_ids wait s name params arguments p)
  arguments-Looks name params none p dry here = here
  arguments-Looks name params (some arguments) p dry here =
      rw dry (dispatch-Looks name arguments p here)

  known-Looks :
      (name : String) (params : Entries) (spec : Option (ToolSpec W)) (p : Process W)
      → wants_dry_run params ≡ true
      → c.At start p.world
      → Looks (known_tool g txn_ids wait s name params spec p)
  known-Looks name params none p dry here = here
  known-Looks name params (some spec) p dry here =
      arguments-Looks name params (object_or_empty "arguments" params) p dry here

  named-Looks :
      (params : Entries) (name : Option String) (p : Process W)
      → wants_dry_run params ≡ true
      → c.At start p.world
      → Looks (named_call g txn_ids wait s params name p)
  named-Looks params none p dry here = here
  named-Looks params (some name) p dry here =
      known-Looks name params (get name g.base.registry) p dry here

  -- A `tools/call` with `_pherix_dry_run`, with any other parameters, leaves the world looking as it
  -- did, if the adapters of the gateway honour the contract of restoration and the server's thread
  -- owns its transactions.
  pub wire_dry_run_restores :
      (params : Entries) (p : Process W)
      → wants_dry_run params ≡ true
      → c.At start p.world
      → c.At start (tools_call g txn_ids wait s params p).1.world
  unfolding tools_call
  wire_dry_run_restores params p dry here =
      named-Looks params (text_in (field_of "name" params)) p dry here

module _ {W X : Type 0} (c : Contract W X) (start : X) (g : Gateway W) (txn_ids : Naming)
    (wait : W → W) (identity : Option String) (honest : Honours c start (env_for g identity))
    (own : (g.base.thread ==ℕ g.base.owner_thread) ≡ true) where
  -- Where the call of a `tools/call` raises `x`, in the transaction that the server opens for it, the
  -- reply is a refusal with the code of `x`, and the world looks as it did, if the adapters of the
  -- gateway honour the contract of restoration and the server's thread owns its transactions.
  pub refused_call_restores :
      (name : String) (arguments : Entries) (x : Exc) (p : Process W)
      → c.At start p.world
      → ((w : W)
          → begin_adapters (env_for g identity) (naming g txn_ids wait identity) p.world
            ≡ (ok tt, w)
          → (run_agent (env_for g identity) wait (one_call name arguments) (
              new_context
                (env_for g identity)
                (naming g txn_ids wait identity)
                (record p { world = w }))).0
            ≡ err x)
      → (o : Option String) × (p' : Process W) × (dispatch_commit g txn_ids wait identity name
            arguments p
          ≡ (replies (refused (refusal_code x) o), p'))
        × c.At start p'.world
  unfolding dispatch_commit
  refused_call_restores name arguments x p here raised =
      let (p', ends, there, _) =
        failed_block_restores c start (env_for g identity) honest own wait
          (naming g txn_ids wait identity) (one_call name arguments) x p
          (one_call-NeverCommits name arguments) here raised in
      (
        opened_id g txn_ids wait (env_for g identity) p,
        p',
        ap
            (λ (r : Result (Unit {0}) × Process W).
              (replies (commit_reply g txn_ids wait (env_for g identity) p r.0), r.1))
            ends,
        there,
      )
