-- ===== src/Session/Conflicts.antt =====
-- Blocks of `agent_txn` whose commit meets a conflict.
use pherix.Base.{
  ◌==ℕ◌, ◌≡◌, refl, sym, ap, ◌∙◌, Bool, true, false, not, ◌&&◌, List, ◌∷◌, if◌then◌else◌,
}
use pherix.Errors.{Result, ok, err, Conflict, skip, ◌>>◌, >>-run, >>-raise}
use pherix.Isolation.{Isolation, abort, retry, serialize, resolve, check_conflicts}
use pherix.Audit.{record_conflicts}
use pherix.Runtime.State.{Env, State, guard_thread, guard_open, on_audit}
use pherix.Runtime.Commit.{commit_txn, isolation_check, wait_for_blockers}
use pherix.Runtime.Restore.{Contract, Honours, own_thread, still_open}
use pherix.Runtime.Restore.Calls.{Live, Live-same}
use pherix.Runtime.Closed.{is_closed}
use pherix.Transaction.{TxnState}
use pherix.Session.{Agent, run_agent, auto_commit, catch_exception, run_block}
use pherix.Session.Restored.{
  NeverCommits, Stands, has_landed, run_agent-Stands, on_exception-Landed, is_live,
}

-- `Serialize` alone waits.
abbrev pub waits : Isolation → Bool
waits serialize = true
waits _ = false

module _ {W : Type 0} (env : Env W) (wait : W → W) where
  not_waiting : (i : Isolation) (s : State W) → waits i ≡ false → wait_for_blockers env wait i s ≡ s
  not_waiting abort s still = refl
  not_waiting serialize s still = cc
  not_waiting (retry n) s still = refl

  isolation_check-raises :
      (s : State W) (k : Conflict) (ks : List Conflict)
      → waits env.isolation ≡ false
      → check_conflicts s.txn.effects env.adapters s.world ≡ ok (k ∷ ks)
      → isolation_check env wait s ≡ (
        err (resolve env.isolation env.in_run_txn (k ∷ ks)),
        on_audit (record_conflicts s.txn.txn_id (k ∷ ks)) s,
      )
  unfolding isolation_check
  isolation_check-raises s k ks still found = rw (not_waiting env.isolation s still, found) refl

module _ {W X : Type 0} (c : Contract W X) (start : X) (env : Env W) (honest : Honours c start env)
    (own : (env.thread ==ℕ env.owner_thread) ≡ true) (wait : W → W) where
  commit-raises :
      (s : State W) (k : Conflict) (ks : List Conflict)
      → is_closed s ≡ false
      → waits env.isolation ≡ false
      → check_conflicts s.txn.effects env.adapters s.world ≡ ok (k ∷ ks)
      → commit_txn env wait false s ≡ (
        err (resolve env.isolation env.in_run_txn (k ∷ ks)),
        on_audit (record_conflicts s.txn.txn_id (k ∷ ks)) s,
      )
  unfolding commit_txn
  commit-raises s k ks opened still found =
      >>-run (guard_thread env) _ s s tt (own_thread c start env s own)
      ∙ >>-run guard_open _ s s tt (still_open c start env s opened)
      ∙ >>-raise (isolation_check env wait) _ s _ _
          (isolation_check-raises env wait s k ks still found)

  unfinished-Live : (t : State W) → Stands c start env t → t.finished ≡ false → Live c start env t
  unfinished-Live t (is_live live) going = live
  unfinished-Live t (has_landed landed) going =
      let never : true ≡ false = sym landed.finished ∙ going in cc

  -- The adapters honour the contract of restoration, the calling thread owns the transaction, which
  -- is live when the block starts, the isolation does not wait, the block calls no `commit` and
  -- returns with the context open, and the diff at the automatic commit finds conflicts. Then the
  -- block raises what the isolation makes of them, the transaction is rolled back, and the world
  -- looks as it did at the start.
  pub conflict_restores :
      (body : Agent) (s : State W) (k : Conflict) (ks : List Conflict)
      → NeverCommits body
      → Live c start env s
      → (run_agent env wait body s).0 ≡ ok tt
      → (run_agent env wait body s).1.finished ≡ false
      → waits env.isolation ≡ false
      → check_conflicts
          (run_agent env wait body s).1.txn.effects
          env.adapters
          (run_agent env wait body s).1.world
        ≡ ok (k ∷ ks)
      → (s' : State W) × (run_block env wait body s
          ≡ (err (resolve env.isolation env.in_run_txn (k ∷ ks)), s'))
        × c.At start s'.world
        × (s'.txn.state ≡ TxnState.rolled_back)
  unfolding run_block
  conflict_restores body s k ks never live returned going still found =
      let t = (run_agent env wait body s).1 in
      let x = resolve env.isolation env.in_run_txn (k ∷ ks) in
      let u : State W = on_audit (record_conflicts t.txn.txn_id (k ∷ ks)) t in
      let live_t =
        unfinished-Live t (run_agent-Stands c start env honest own wait body s never (is_live live))
          going in
      let live_u = Live-same c start env t u refl refl refl refl live_t in
      let test : (not t.finished && not t.pending) ≡ true = rw (going, live_t.not_held) refl in
      let commits =
        ap (λ b. if b then (commit_txn env wait false >> skip) t else (ok tt, t)) test
        ∙ >>-raise (commit_txn env wait false) skip t u x
            (commit-raises t k ks live_t.opened still found) in
      let ran =
        >>-run (run_agent env wait body) (auto_commit env wait) s t tt
          (ap (λ r. (r, t)) returned) in
      let (s', back, landed) =
        on_exception-Landed c start env honest own wait x u (is_live live_u) in
      (
        s',
        ap (λ (r : Result (Unit {0}) × State W). catch_exception env wait r.0 r.1) (ran ∙ commits)
            ∙ back,
        landed.looks,
        landed.state_is,
      )
