-- ===== src/Session/Restored.antt =====
-- Blocks of `agent_txn` that do not commit.
use pherix.Base.{
  ◌==ℕ◌, String, ◌≡◌, refl, sym, ap, subst, ◌∙◌, true, false, not, ◌&&◌, List, [], ◌∷◌, arith,
  if◌then◌else◌, eq_refl,
}
use pherix.Values.{Args}
use pherix.Errors.{Result, ok, err, Exc, raise, continue, ◌>>◌, >>-run}
use pherix.Transaction.{TxnState}
use pherix.Adapter.{unique}
use pherix.Runtime.State.{Env, State}
use pherix.Runtime.Record.{record_tool_call, approve_irreversible}
use pherix.Runtime.Keeps.{All-unique}
use pherix.Runtime.Unwind.{rollback}
use pherix.Runtime.Closed.{is_closed, closed-Refuses}
use pherix.Runtime.Restore.{Contract, Honours, Stays, each-Stays, rollback-start}
use pherix.Runtime.Restore.Calls.{Live, record_tool_call-Live, approve-Live}
use pherix.Session.{
  Process, Agent, returns, raises, calls, approves, commits, rolls_back, Naming, run_agent,
  auto_commit, on_exception, catch_exception, run_block, agent_txn, new_context, begin_adapters,
  begun, register, unregister, closed_process,
}

-- The block calls no `commit`.
abbrev pub NeverCommits : Agent → Type 0
NeverCommits returns = Unit
NeverCommits (raises x) = Unit
NeverCommits (calls tool args next) = (r : Result _) → NeverCommits (next r)
NeverCommits (approves effect_id next) = (r : Result _) → NeverCommits (next r)
NeverCommits (commits pending_approval next) = true ≡ false
NeverCommits (rolls_back next) = (r : Result _) → NeverCommits (next r)

unregister-unregister :
    (t : String) (open_ids : List String)
    → unregister t (unregister t open_ids) ≡ unregister t open_ids
unfolding unregister
unregister-unregister t [] = refl
unregister-unregister t (i ∷ open_ids) = ground (arith, unregister-unregister t open_ids)

unregister-register :
    (t : String) (open_ids : List String)
    → unregister t (register t open_ids) ≡ unregister t open_ids
unfolding unregister register
unregister-register t open_ids = rw (eq_refl t, unregister) (unregister-unregister t open_ids)

module _ {W X : Type 0} (c : Contract W X) (start : X) (env : Env W) where
  -- Rolled back, and the world looks as it did at the start.
  pub record Landed (s : State W) : Type 0 where
    pub finished : s.finished ≡ true
    pub looks : c.At start s.world
    pub state_is : s.txn.state ≡ TxnState.rolled_back

  Landed-closed : (s : State W) → Landed s → is_closed s ≡ true
  Landed-closed s landed = rw landed.finished refl

  pub data Stands (s : State W) : Type 0 where
    is_live : Live c start env s → Stands s
    has_landed : Landed s → Stands s

  module _ (honest : Honours c start env) (own : (env.thread ==ℕ env.owner_thread) ≡ true)
      (wait : W → W) where
    call-Stands :
        (tool : String) (args : Args) (s : State W)
        → Stands s
        → Stands (record_tool_call env tool args s).1
    call-Stands tool args s (is_live live) =
        is_live (record_tool_call-Live c start env honest tool args s live)
    call-Stands tool args s (has_landed landed) = has_landed (
        subst Landed
          (sym (closed-Refuses env wait false tool args tool s (Landed-closed s landed)).0.1)
          landed)

    approve-Stands :
        (effect_id : String) (s : State W)
        → Stands s
        → Stands (approve_irreversible env effect_id s).1
    approve-Stands effect_id s (is_live live) =
        is_live (approve-Live c start env honest effect_id s live)
    approve-Stands effect_id s (has_landed landed) = has_landed (
        subst Landed
          (sym
            (closed-Refuses env wait false effect_id [] effect_id s (Landed-closed s landed)).1.1)
          landed)

    pub rollback-Landed :
        (s : State W)
        → Live c start env s
        → (s' : State W) × (rollback env s ≡ (ok tt, s')) × Landed s'
    rollback-Landed s live =
        let (s', back, looks, state_is, finished) =
          rollback-start c start env honest s own live.opened live.undoable in
        (s', back, record { finished = finished; looks = looks; state_is = state_is })

    pub rollback-Stands : (s : State W) → Stands s → Stands (rollback env s).1
    rollback-Stands s (is_live live) =
        let (s', back, landed) = rollback-Landed s live in has_landed (rw back landed)
    rollback-Stands s (has_landed landed) = has_landed (
        subst Landed (sym (closed-Refuses env wait false "" [] "" s (Landed-closed s landed)).3.1)
          landed)

    pub run_agent-Stands :
        (body : Agent) (s : State W)
        → NeverCommits body
        → Stands s
        → Stands (run_agent env wait body s).1
    unfolding run_agent
    run_agent-Stands returns s never stands = stands
    run_agent-Stands (raises x) s never stands = stands
    run_agent-Stands (calls tool args next) s never stands =
        let (r, s') = record_tool_call env tool args s in
        run_agent-Stands (next r) s' (never r) (call-Stands tool args s stands)
    run_agent-Stands (approves effect_id next) s never stands =
        let (r, s') = approve_irreversible env effect_id s in
        run_agent-Stands (next r) s' (never r) (approve-Stands effect_id s stands)
    run_agent-Stands (commits p next) s never stands = cc
    run_agent-Stands (rolls_back next) s never stands =
        let (r, s') = rollback env s in
        run_agent-Stands (next r) s' (never r) (rollback-Stands s stands)

    -- A context that the construction gives.
    pub new_context-Live :
        (names : Naming) (p : Process W)
        → c.At start p.world
        → Live c start env (new_context env names p)
    unfolding new_context
    new_context-Live names p here = record {
      opened = refl;
      not_held = refl;
      undoable = record { latest = start; looks = here; chain = refl };
      indexed = tt;
    }

    pub on_exception-Landed :
        (x : Exc) (t : State W)
        → Stands t
        → (s' : State W) × (on_exception env wait x t ≡ (err x, s')) × Landed s'
    on_exception-Landed x t (is_live live) =
        let (s', back, landed) = rollback-Landed t live in
        let test : (not t.finished && not t.pending) ≡ true =
          rw live.not_held (ground (arith, live.opened)) in
        (
          s',
          ap (λ b. if b then (rollback env >> raise x) t else (err x, t)) test
              ∙ >>-run (rollback env) (raise x) t s' tt back,
          landed,
        )
    on_exception-Landed x t (has_landed landed) =
        let test : (not t.finished && not t.pending) ≡ false = rw landed.finished refl in
        (t, ap (λ b. if b then (rollback env >> raise x) t else (err x, t)) test, landed)

    raised-block :
        (body : Agent) (x : Exc) (s : State W)
        → (run_agent env wait body s).0 ≡ err x
        → run_block env wait body s ≡ on_exception env wait x (run_agent env wait body s).1
    unfolding run_block
    raised-block body x s raised =
        ap
          (λ (r : Result (Unit {0})).
            let (q, s') = continue r (λ _. auto_commit env wait) (run_agent env wait body s).1 in
            catch_exception env wait q s')
          raised

    -- A block that raises is rolled back, and the exception is raised on.
    run_block-Landed :
        (body : Agent) (x : Exc) (s : State W)
        → NeverCommits body
        → Stands s
        → (run_agent env wait body s).0 ≡ err x
        → (s' : State W) × (run_block env wait body s ≡ (err x, s')) × Landed s'
    run_block-Landed body x s never stands raised =
        let (s', back, landed) =
          on_exception-Landed x (run_agent env wait body s).1
            (run_agent-Stands body s never stands) in
        (s', raised-block body x s raised ∙ back, landed)

    -- The adapters honour the contract, which the world before the transaction looks like `start`
    -- in. A block that calls no `commit` and ends by raising is rolled back: whatever it called
    -- before, whichever calls raised, and whether or not it has rolled back itself, `agent_txn` raises
    -- the same exception, and the world looks as it did before.
    pub failed_block_restores :
        (names : Naming) (body : Agent) (x : Exc) (p : Process W)
        → NeverCommits body
        → c.At start p.world
        → ((w : W)
            → begin_adapters env names p.world ≡ (ok tt, w)
            → (run_agent env wait body (new_context env names (record p { world = w }))).0 ≡ err x)
        → (p' : Process W) × (agent_txn env names wait body p ≡ (err x, p'))
          × c.At start p'.world
          × (p'.open_contexts ≡ unregister (names.txn_id p.drawn) p.open_contexts)
    unfolding agent_txn begin_adapters
    failed_block_restores names body x p never here raised =
        let (w, opened, there) =
          each-Stays c start env (λ a. a.begin_txn) (unique env.adapters)
            (All-unique (λ a. Stays c start a.begin_txn) [] env.adapters honest.begins) p.world
            here in
        let q : Process W = record p { world = w } in
        let (s', back, landed) =
          run_block-Landed body x (new_context env names q) never
            (is_live (new_context-Live names q there)) (raised w opened) in
        (
          closed_process env names q s',
          ap (begun env names (run_block env wait body) p) opened
              ∙ ap (λ (r : Result (Unit {0}) × State W). (r.0, closed_process env names q r.1))
                  back,
          landed.looks,
          unregister-register (names.txn_id p.drawn) p.open_contexts,
        )
