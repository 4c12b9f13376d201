-- ===== src/Session/Retry.antt =====
-- `run_txn` of pherix/frontends/library.py: transactions over the one body, until one of them does
-- not end in a retry signal.
use pherix.Base.{ℕ, zero, suc, true, List, []}
use pherix.Errors.{Result, ok, err, Exec, Conflict, isolation_conflict, retry_signal}
use pherix.Isolation.{Isolation, retry}
use pherix.Runtime.State.{Env}
use pherix.Session.{Process, Agent, Naming, agent_txn}

-- `isolation.max_attempts if isinstance(isolation, Retry) else 1`
abbrev pub max_attempts : Isolation → ℕ
max_attempts (retry n) = n
max_attempts _ = 1

module _ {W : Type 0} (env : Env W) (names : Naming) (wait : W → W) (body : Agent) where
  abbrev pub after_attempt :
      (List Conflict → Exec (Process W) (Unit {0}))
      → Result (Unit {0})
      → Exec (Process W) (Unit {0})
  after_attempt again (ok _) p = (ok tt, p)
  after_attempt again (err (retry_signal conflicts)) p = again conflicts p
  after_attempt again (err x) p = (err x, p)

  -- `for _ in range(max_attempts)`, with the last conflicts.
  unfoldable pub attempts : ℕ → List Conflict → Exec (Process W) (Unit {0})
  unfolding agent_txn
  attempts zero last_conflicts p = (err (isolation_conflict last_conflicts), p)
  attempts (suc n) last_conflicts p =
      let (r, p') = agent_txn env names wait body p in after_attempt (attempts n) r p'

unfoldable pub run_txn :
    {W : Type 0} → Env W → Naming → (W → W) → Agent → Exec (Process W) (Unit {0})
unfolding attempts
run_txn env names wait body =
    attempts (record env { in_run_txn = true }) names wait body (max_attempts env.isolation) []
