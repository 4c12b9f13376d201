-- ===== src/Session/Attempts.antt =====
-- The loop of `run_txn`.
use pherix.Base.{ℕ, zero, suc, ◌+◌, ◌≤◌, ◌≡◌, refl, Bool, true, false, List, [], arith}
use pherix.Errors.{
  Result, ok, err, Exec, Conflict, isolation_conflict, retry_signal, policy_violation, gate_blocked,
  compensator_not_registered, transaction_state, wrong_thread, no_adapter, key_error, value_error,
  runtime_error, raised,
}
use pherix.Runtime.State.{Env}
use pherix.Session.{Process, Agent, Naming, agent_txn, begun, run_block, begin_adapters}
use pherix.Session.Retry.{max_attempts, after_attempt, attempts, run_txn}

abbrev pub is_retry : {A : Type 0} → Result A → Bool
is_retry (err (retry_signal conflicts)) = true
is_retry _ = false

-- The outcome of the loop from a process `p` on, with `n` attempts left.
abbrev pub Bounded : {W : Type 0} → ℕ → Process W → Result (Unit {0}) × Process W → Type 0
Bounded n p (r, p') = (p'.drawn ≤ p.drawn + n) × (is_retry r ≡ false)

module _ {W : Type 0} (env : Env W) (names : Naming) (wait : W → W) (body : Agent) where
  agent_txn-drawn : (p : Process W) → (agent_txn env names wait body p).1.drawn ≤ suc p.drawn
  unfolding agent_txn begin_adapters
  agent_txn-drawn p = begun-drawn (begin_adapters env names p.world)
    where
      begun-drawn :
          (r : Result (Unit {0}) × W)
          → (begun env names (run_block env wait body) p r).1.drawn ≤ suc p.drawn
      begun-drawn (ok _, w) = omega arith
      begun-drawn (err x, w) = omega arith

  after-Bounded :
      (n : ℕ) (again : List Conflict → Exec (Process W) (Unit {0})) (r : Result (Unit {0}))
      (p p' : Process W)
      → ((conflicts : List Conflict) → Bounded n p' (again conflicts p'))
      → p'.drawn ≤ suc p.drawn
      → Bounded (suc n) p (after_attempt env names wait body again r p')
  after-Bounded n again (ok _) p p' later one = (omega (arith, one), refl)
  after-Bounded n again (err (retry_signal cs)) p p' later one =
      let (le, never) = later cs in (omega (arith, one, le), never)
  after-Bounded n again (err (policy_violation v)) p p' later one = (omega (arith, one), refl)
  after-Bounded n again (err (gate_blocked v)) p p' later one = (omega (arith, one), refl)
  after-Bounded n again (err (compensator_not_registered v u)) p p' later one =
      (omega (arith, one), refl)
  after-Bounded n again (err (isolation_conflict v)) p p' later one = (omega (arith, one), refl)
  after-Bounded n again (err transaction_state) p p' later one = (omega (arith, one), refl)
  after-Bounded n again (err wrong_thread) p p' later one = (omega (arith, one), refl)
  after-Bounded n again (err (no_adapter v)) p p' later one = (omega (arith, one), refl)
  after-Bounded n again (err (key_error v)) p p' later one = (omega (arith, one), refl)
  after-Bounded n again (err (value_error v)) p p' later one = (omega (arith, one), refl)
  after-Bounded n again (err (runtime_error v)) p p' later one = (omega (arith, one), refl)
  after-Bounded n again (err (raised v)) p p' later one = (omega (arith, one), refl)

  attempts-Bounded :
      (n : ℕ) (last_conflicts : List Conflict) (p : Process W)
      → Bounded n p (attempts env names wait body n last_conflicts p)
  unfolding attempts
  attempts-Bounded zero last_conflicts p = (omega arith, refl)
  attempts-Bounded (suc n) last_conflicts p =
      let (r, p') = agent_txn env names wait body p in
      after-Bounded n (attempts env names wait body n) r p p' (λ cs. attempts-Bounded n cs p')
        (agent_txn-drawn p)

-- `run_txn` begins at most as many transactions as its isolation allows attempts, and its caller
-- never meets the internal retry signal.
pub run_txn-Bounded :
    {W : Type 0} (env : Env W) (names : Naming) (wait : W → W) (body : Agent) (p : Process W)
    → Bounded (max_attempts env.isolation) p (run_txn env names wait body p)
unfolding run_txn
run_txn-Bounded env names wait body p =
    attempts-Bounded (record env { in_run_txn = true }) names wait body (max_attempts env.isolation)
      [] p
