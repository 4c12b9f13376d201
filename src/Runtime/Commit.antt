-- ===== src/Runtime/Commit.antt =====
-- `TxnContext.commit`: the isolation check, the policy bracket, the gate, the forward fold over the
-- staged effects and the finalisation.
use pherix.Base.{
  ℤ, pos, negsuc, String, Bool, true, false, not, ◌&&◌, Option, none, some, List, [], ◌∷◌, ◌++◌,
  map, select, contains, get_elem?, if◌then◌else◌,
}
use pherix.Effects.{Effect, EffectStatus, Outcome, PendingApproval, is_staged, is_applied}
use pherix.Errors.{
  Result, ok, err, and_then, Exec, pure, raise, lift, gets, modify, skip, ◌>>=◌, ◌>>◌, Exc,
  Conflict, policy_violation, gate_blocked,
}
use pherix.Transaction.{TxnState}
use pherix.Adapter.{Adapter, ToolSpec, unique}
use pherix.Audit.{
  record_conflicts, record_pending_approval, approved_effect_ids, update_transaction_state,
}
use pherix.Policy.Engine.{evaluate_journal, approves_gate}
use pherix.Isolation.{Isolation, serialize, check_conflicts, resolve, all_reads}
use pherix.Envelope.{pending_increments, flush_increments}
use pherix.Runtime.State.{
  Env, State, guard_open, guard_thread, resolve_adapter, registered, on_world, on_audit, on_context,
  save_effect, move_to, each_transactional,
}
use pherix.Runtime.Record.{apply_effect}
use pherix.Runtime.Unwind.{rollback, partial_unwind}

abbrev pub is_staging : TxnState → Bool
is_staging TxnState.staged = true
is_staging _ = false

-- `e.status is EffectStatus.STAGED and not e.reversible`
abbrev pub is_pending : Effect → Bool
is_pending e = is_staged e.status && not e.reversible

module _ {W : Type 0} (env : Env W) (wait : W → W) where
  -- While `Serialize` waits, other transactions go on: `wait` is what they do to the world.
  abbrev pub wait_for_blockers : Isolation → State W → State W
  wait_for_blockers serialize s = elim (all_reads s.txn.effects) [
    | [] ↦ s
    | r ∷ rs ↦ record s { world = wait s.world }
  ]
  wait_for_blockers _ s = s

  abbrev pub report : List Conflict → Exec (State W) (Unit {0})
  report [] = skip
  report (c ∷ cs) = do
    modify (λ s. on_audit (record_conflicts s.txn.txn_id (c ∷ cs)) s)
    raise (resolve env.isolation env.in_run_txn (c ∷ cs))

  -- `_run_isolation_check`
  unfoldable pub isolation_check : Exec (State W) (Unit {0})
  unfolding check_conflicts resolve
  isolation_check = do
    modify (wait_for_blockers env.isolation)
    conflicts ← (λ s. (check_conflicts s.txn.effects env.adapters s.world, s))
    report conflicts

module _ {W : Type 0} (env : Env W) where
  abbrev pub begin_staging : List Effect → Exec (State W) (Unit {0})
  begin_staging [] = skip
  begin_staging (e ∷ es) = move_to TxnState.staged

  -- `self.txn.effects[exc.effect_index]`, if the index is in range.
  abbrev pub denied_effect : Option ℤ → List Effect → Option Effect
  denied_effect (some (pos n)) effects = get_elem? effects n
  denied_effect (some (negsuc n)) effects = none
  denied_effect none effects = none

  abbrev pub mark_gated : Option Effect → State W → State W
  mark_gated none s = s
  mark_gated (some e) s = save_effect (record e { status = EffectStatus.gated }) s

  -- The unwind of a transaction that was denied at commit.
  unfoldable pub unwind_denied : Exec (State W) (Unit {0})
  unwind_denied s = if is_staging s.txn.state then partial_unwind env s else rollback env s

  abbrev pub on_denied : Exc → Exec (State W) (Unit {0})
  on_denied (policy_violation v) = do
    modify (λ s. mark_gated (denied_effect v.effect_index s.txn.effects) s)
    unwind_denied
    raise (policy_violation v)
  on_denied x = raise x

  abbrev pub catch_denied : Result (Unit {0}) → Exec (State W) (Unit {0})
  catch_denied (ok _) = skip
  catch_denied (err x) = on_denied x

  -- `try: evaluate_journal ... except PolicyViolation`
  unfoldable pub policy_bracket : Exec (State W) (Unit {0})
  unfolding unwind_denied
  policy_bracket s =
      let (r, s') = on_context env (evaluate_journal env.policy s.txn.effects) s in
      catch_denied r s'

  -- `_gate_cleared`
  unfoldable pub gate_cleared : List String → Effect → Result Bool
  gate_cleared approved e = elim e.compensator [
    | some name ↦ ok true
    | none ↦ if contains e.effect_id approved then ok true else approves_gate env.policy e
  ]

  -- The staged effects that do not clear the gate.
  unfoldable pub blocked_effects : List String → List Effect → Result (List Effect)
  unfolding gate_cleared
  blocked_effects approved [] = ok []
  blocked_effects approved (e ∷ es) = and_then (gate_cleared approved e) λ cleared.
      and_then (blocked_effects approved es) λ rest. ok (if cleared then rest else e ∷ rest)

  -- The approvals given in the process and those of the journal.
  abbrev pub approved_ids : State W → List String
  approved_ids s = s.approvals ++ approved_effect_ids s.txn.txn_id s.audit

  abbrev pub handle_of : String → Effect → PendingApproval
  handle_of txn_id e = record {
    txn_id = txn_id;
    effect_id = e.effect_id;
    token = env.digest.approval_token txn_id e.effect_id;
  }

  unfoldable pub request_approvals : List Effect → State W → State W
  request_approvals [] s = s
  request_approvals (e ∷ es) s =
      let h = handle_of s.txn.txn_id e in
      request_approvals es (on_audit (record_pending_approval s.txn.txn_id h.effect_id h.token) s)

  abbrev pub reopen : State W → State W
  reopen s =
      if is_staging s.txn.state
      then on_audit (update_transaction_state s.txn.txn_id TxnState.open_)
          (record s { txn = record s.txn { state = TxnState.open_ } })
      else s

  -- The resumable path: the blocked effects wait for an approval, nothing fires.
  unfoldable pub hold : List Effect → Exec (State W) (List PendingApproval)
  unfolding request_approvals
  hold blocked s =
      let s' = reopen (request_approvals blocked s) in
      (ok (map (handle_of s.txn.txn_id) blocked), record s' { pending = true })

  unfoldable pub gate_effects : List Effect → State W → State W
  gate_effects [] s = s
  gate_effects (e ∷ es) s =
      gate_effects es (save_effect (record e { status = EffectStatus.gated }) s)

  -- The hard gate.
  unfoldable pub block : List Effect → Exec (State W) (List PendingApproval)
  unfolding gate_effects
  block blocked = do
    modify (gate_effects blocked)
    partial_unwind env
    raise (gate_blocked (map (λ (e : Effect). e.effect_id) blocked))

  -- A failed run unwinds the transaction and is raised on.
  abbrev pub settle_fired : Result Outcome → Exec (State W) (Unit {0})
  settle_fired (ok _) = skip
  settle_fired (err x) = do partial_unwind env; raise x

  abbrev pub fire_with : Adapter W → ToolSpec W → Effect → Exec (State W) (Unit {0})
  fire_with a spec e s = let (r, s') = apply_effect a spec e s in settle_fired r s'

  unfoldable pub fire_effect : Effect → Exec (State W) (Unit {0})
  fire_effect e s =
      if is_applied e.status
      then (ok tt, s)
      else (do
        a ← lift (resolve_adapter env e.resource)
        spec ← lift (registered env e.tool)
        fire_with a spec e)
          s

  -- The forward fold over the staged effects.
  unfoldable pub fire_effects : List Effect → Exec (State W) (Unit {0})
  unfolding fire_effect
  fire_effects [] = skip
  fire_effects (e ∷ es) = fire_effect e >> fire_effects es

  -- The budget that the transaction has consumed, added to the durable totals.
  abbrev consume_budget : Exec (State W) (Unit {0})
  consume_budget s = elim (pending_increments s.context.today s.txn.effects env.policy.caps) [
    | err x ↦ (err x, s)
    | ok incs ↦ (
      ok tt,
      record s { context = record s.context { spent = flush_increments incs s.context.spent } },
    )
  ]

  unfoldable pub finalise : Exec (State W) (List PendingApproval)
  unfolding pending_increments flush_increments
  finalise = do
    on_world (each_transactional (λ a. a.commit_txn) (unique env.adapters))
    move_to TxnState.committed
    consume_budget
    modify (λ s. record s { finished = true })
    pure []

  abbrev pub pass_gate : Bool → List Effect → List Effect → Exec (State W) (List PendingApproval)
  pass_gate pending_approval staged [] s =
      (do fire_effects staged; finalise) (record s { pending = false })
  pass_gate pending_approval staged (b ∷ bs) s =
      if pending_approval then hold (b ∷ bs) s else block (b ∷ bs) s

  -- The gate and what follows it; with no staged effect there is no gate.
  unfoldable pub gate_and_fire : Bool → List Effect → Exec (State W) (List PendingApproval)
  unfolding blocked_effects hold block fire_effects finalise
  gate_and_fire pending_approval [] = finalise
  gate_and_fire pending_approval (e ∷ es) = do
    approved ← gets approved_ids
    blocked ← lift (blocked_effects approved (e ∷ es))
    pass_gate pending_approval (e ∷ es) blocked

module _ {W : Type 0} (env : Env W) (wait : W → W) where
  unfoldable pub commit_txn : Bool → Exec (State W) (List PendingApproval)
  unfolding isolation_check policy_bracket gate_and_fire
  commit_txn pending_approval = do
    guard_thread env
    guard_open
    isolation_check env wait
    staged ← gets (λ (s : State W). select is_pending s.txn.effects)
    begin_staging env staged
    policy_bracket env
    gate_and_fire env pending_approval staged
