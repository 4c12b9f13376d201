-- ===== src/Runtime/Gate.antt =====
-- The irreversibility gate of `TxnContext.commit`: what a commit that the gate refuses cannot have
-- done to the world.
use pherix.Base.{
  String, ◌≡◌, refl, sym, subst, true, false, not, ◌||◌, List, [], ◌∷◌, All, all, arith, Bool-cases,
  inl, inr, select, ◌==ℕ◌, Option, none, some,
}
use pherix.Effects.{Effect, EffectStatus, PendingApproval}
use pherix.Values.{KeyEntry}
use pherix.Errors.{
  Result, ok, err, is_ok, Exec, ◌>>=◌, ◌>>◌, lift, modify, raise, continue, Exc, policy_violation,
  Conflict,
}
use pherix.Isolation.{Isolation, abort, retry, serialize, all_reads, check_conflicts}
use pherix.Transaction.{TxnState, is_open, allowed, transition}
use pherix.Adapter.{Adapter}
use pherix.Audit.{approved_effect_ids, update_transaction_state}
use pherix.Runtime.State.{Env, State, guard_open, guard_thread, save_effect, write_back, move_to}
use pherix.Runtime.Keeps.{UndoKeeps, Ends, Leads, Leads-bind}
use pherix.Runtime.Containment.{is_contained, Keeps-partial_unwind, rollback_fires_nothing}
use pherix.Runtime.Unwind.{partial_unwind}
use pherix.Runtime.Commit.{
  is_pending, begin_staging, isolation_check, policy_bracket, on_denied, mark_gated, denied_effect,
  unwind_denied, catch_denied, is_staging, wait_for_blockers, report, blocked_effects, approved_ids,
  gate_effects, block, gate_and_fire, pass_gate, commit_txn,
}

write_back-contained :
    (e : Effect) (xs : List Effect)
    → is_contained e ≡ true
    → all is_contained xs ≡ true
    → all is_contained (write_back e xs) ≡ true
write_back-contained e [] c cs = refl
write_back-contained e (x ∷ xs) c cs = ground (arith, write_back-contained e xs)

module _ {W : Type 0} where
  abbrev Contained : State W → Type 0
  Contained s = all is_contained s.txn.effects ≡ true

  save_gated-Contained :
      (e : Effect) (s : State W)
      → Contained s
      → Contained (save_effect (record e { status = EffectStatus.gated }) s)
  unfolding save_effect
  save_gated-Contained e s c =
      write_back-contained (record e { status = EffectStatus.gated }) s.txn.effects (ground arith) c

module _ {W : Type 0} (P : W → Type 0) where
  -- The world is untouched as far as `P` sees, and nothing irreversible is applied.
  abbrev Held : State W → Type 0
  Held s = Contained s × P s.world

  gate_effects-Held :
      (env : Env W) (bs : List Effect) (s : State W) → Held s → Held (gate_effects env bs s)
  unfolding gate_effects save_effect
  gate_effects-Held env [] s h = h
  gate_effects-Held env (b ∷ bs) s h =
      gate_effects-Held env bs _ (save_gated-Contained b s h.0, h.1)

module _ {W : Type 0} (P : W → Type 0) (env : Env W) (wait : W → W)
    (undo : All (λ (e : String × Adapter W). UndoKeeps P e.1) env.adapters)
    (waits : (w : W) → P w → P (wait w)) (s0 : State W) (b : Effect) (bs : List Effect)
    (contained : all is_contained s0.txn.effects ≡ true)
    (refused : blocked_effects env (approved_ids env s0) (select is_pending s0.txn.effects)
      ≡ ok (b ∷ bs)) where
  -- The journal and the approvals are still those of the start.
  abbrev At : State W → Type 0
  At s = (s.txn.effects ≡ s0.txn.effects) × (approved_ids env s ≡ approved_ids env s0) × P s.world

  abbrev Unhurt : State W → Type 0
  Unhurt s = P s.world

  held : (s : State W) → At s → Held P s
  held s (effects, _, p) = (rw effects contained, p)

  Leads-thread : Leads At At Unhurt (guard_thread env)
  unfolding guard_thread
  Leads-thread = record {
    run = λ s h. elim (Bool-cases (env.thread ==ℕ env.owner_thread)) [
      | inl y ↦ rw y h
      | inr n ↦ rw n h.2
    ];
  }

  Leads-open : Leads At At Unhurt guard_open
  unfolding guard_open
  Leads-open = record {
    run = λ s h. elim (Bool-cases (s.finished || not (is_open s.txn.state))) [
      | inl y ↦ rw y h.2
      | inr n ↦ rw n h
    ];
  }

  Leads-waiting : (i : Isolation) → Leads At At Unhurt (modify (wait_for_blockers env wait i))
  Leads-waiting serialize = record { run = λ s h. waiting s (all_reads s.txn.effects) refl h }
    where
      waiting :
          (s : State W) (reads : List KeyEntry)
          → all_reads s.txn.effects ≡ reads
          → At s
          → At (wait_for_blockers env wait serialize s)
      waiting s [] eq h = rw (eq, wait_for_blockers) h
      waiting s (r ∷ rs) eq h = rw (eq, wait_for_blockers) (h.0, h.1, waits s.world h.2)
  Leads-waiting abort = record { run = λ s h. h }
  Leads-waiting (retry n) = record { run = λ s h. h }

  Leads-report : (cs : List Conflict) → Leads At At Unhurt (report env wait cs)
  Leads-report [] = record { run = λ s h. h }
  Leads-report (c ∷ cs) = record { run = λ s h. h.2 }

  Leads-isolation : Leads At At Unhurt (isolation_check env wait)
  unfolding isolation_check
  Leads-isolation =
      Leads-bind At (modify (wait_for_blockers env wait env.isolation)) _
        (Leads-waiting env.isolation)
        λ _.
          Leads-bind At (λ (s : State W). (check_conflicts s.txn.effects env.adapters s.world, s)) _
            (record {
              run = λ s h. conflicts s (check_conflicts s.txn.effects env.adapters s.world) h;
            })
            Leads-report
    where
      conflicts : (s : State W) (r : Result (List Conflict)) → At s → Ends At Unhurt (r, s)
      conflicts s (ok cs) h = h
      conflicts s (err x) h = h.2

  Leads-staging : (staged : List Effect) → Leads At At Unhurt (begin_staging env staged)
  unfolding move_to transition approved_effect_ids update_transaction_state
  Leads-staging [] = record { run = λ s h. h }
  Leads-staging (e ∷ es) = record {
    run = λ s h. elim (Bool-cases (allowed s.txn.state TxnState.staged)) [
      | inl y ↦ rw y h
      | inr n ↦ rw n h.2
    ];
  }

  Unhurt-denied : (s : State W) → Contained s → Unhurt s → Unhurt (unwind_denied env s).1
  unfolding unwind_denied
  Unhurt-denied s c p = elim (Bool-cases (is_staging s.txn.state)) [
    | inl y ↦ rw y (Keeps-partial_unwind P env undo s c p)
    | inr n ↦ rw n (rollback_fires_nothing P env undo s p)
  ]

  gated-Held : (o : Option Effect) (s : State W) → Held P s → Held P (mark_gated env o s)
  unfolding save_effect
  gated-Held none s h = h
  gated-Held (some e) s h = (save_gated-Contained e s h.0, h.1)

  Ends-raise :
      (A : Type 0) (Q : State W → Type 0) (m : Exec (State W) (Unit {0})) (x : Exc) (s : State W)
      → Unhurt (m s).1
      → Ends {A = A} Q Unhurt ((m >> raise x) s)
  Ends-raise A Q m x s p = raised_after (m s) p
    where
      raised_after :
          (r : Result (Unit {0}) × State W)
          → Unhurt r.1
          → Ends {A = A} Q Unhurt (continue r.0 (λ _. raise x) r.1)
      raised_after (ok _, t) q = q
      raised_after (err _, t) q = q

  Ends-on_denied : (x : Exc) (s : State W) → At s → Ends At Unhurt (on_denied env x s)
  Ends-on_denied (policy_violation v) s h =
      let e : Option Effect = denied_effect env v.effect_index s.txn.effects in
      let (c, p) = gated-Held e s (held s h) in
      Ends-raise _ At (unwind_denied env) (policy_violation v) (mark_gated env e s)
        (Unhurt-denied (mark_gated env e s) c p)
  Ends-on_denied _ s h = h.2

  Ends-catch_denied :
      (r : Result (Unit {0})) (s : State W) → At s → Ends At Unhurt (catch_denied env r s)
  Ends-catch_denied (ok _) s h = h
  Ends-catch_denied (err x) s h = Ends-on_denied x s h

  Leads-policy : Leads At At Unhurt (policy_bracket env)
  unfolding policy_bracket
  Leads-policy = record { run = λ s h. Ends-catch_denied _ _ h }

  abbrev Never : State W → Type 0
  Never s = true ≡ false

  Ends-block : (s : State W) → At s → Ends Never Unhurt (block env (b ∷ bs) s)
  unfolding block
  Ends-block s h =
      let (c, p) = gate_effects-Held P env (b ∷ bs) s (held s h) in
      Ends-raise _ Never (partial_unwind env) _ (gate_effects env (b ∷ bs) s)
        (Keeps-partial_unwind P env undo _ c p)

  Ends-pass_gate :
      (staged : List Effect) (r : Result (List Effect)) (s : State W)
      → r ≡ ok (b ∷ bs)
      → At s
      → Ends Never Unhurt ((lift r >>= pass_gate env false staged) s)
  Ends-pass_gate staged r s known h = rw known (Ends-block s h)

  Leads-gate :
      (staged : List Effect)
      → select is_pending s0.txn.effects ≡ staged
      → Leads At Never Unhurt (gate_and_fire env false staged)
  unfolding gate_and_fire blocked_effects
  Leads-gate [] same = let none_blocked : ok [] ≡ ok (b ∷ bs) = rw same at refused in cc
  Leads-gate (e ∷ es) same =
      let known = rw same at refused in
      record {
        run = λ s h.
            Ends-pass_gate (e ∷ es) (blocked_effects env (approved_ids env s) (e ∷ es)) s
              (subst (λ ids. blocked_effects env ids (e ∷ es) ≡ ok (b ∷ bs)) (sym h.1) known) h;
      }

  Leads-staged :
      (staged : List Effect)
      → select is_pending s0.txn.effects ≡ staged
      → Leads At Never Unhurt
          (begin_staging env staged >> (policy_bracket env >> gate_and_fire env false staged))
  Leads-staged staged same =
      Leads-bind Never (begin_staging env staged) _ (Leads-staging staged)
        λ _. Leads-bind Never (policy_bracket env) _ Leads-policy λ _. Leads-gate staged same

  Leads-commit : Leads At Never Unhurt (commit_txn env wait false)
  unfolding commit_txn
  Leads-commit = Leads-bind Never (guard_thread env) _ Leads-thread λ _.
      Leads-bind Never guard_open _ Leads-open λ _.
        Leads-bind Never (isolation_check env wait) _ Leads-isolation λ _. record {
          run = λ s h. (Leads-staged (select is_pending s.txn.effects) (rw h.0 refl)).run s h;
        }

  refused-Ends :
      (r : Result (List PendingApproval) × State W)
      → Ends Never Unhurt r
      → (is_ok r.0 ≡ false) × P r.1.world
  refused-Ends (ok v, t) e = (cc, cc)
  refused-Ends (err x, t) e = (refl, e)

  -- A commit whose hard gate refuses an effect does not return, and a property of the world that
  -- restoring, rolling back and waiting keep holds after it, whatever the tools do and whichever
  -- check ends the commit. At its start no irreversible effect is applied, and some staged effect
  -- has no compensator, no approval and no approving predicate.
  pub gate_blocks_firing :
      P s0.world
      → (is_ok (commit_txn env wait false s0).0 ≡ false) × P (commit_txn env wait false s0).1.world
  gate_blocks_firing p =
      refused-Ends (commit_txn env wait false s0) (Leads-commit.run s0 (refl, refl, p))
