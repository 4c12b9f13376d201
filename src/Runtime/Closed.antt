-- ===== src/Runtime/Closed.antt =====
-- The operations of `TxnContext` on a transaction that is finished or no longer OPEN.
use pherix.Base.{String, ◌≡◌, Bool, true, false, not, ◌||◌, arith}
use pherix.Values.{Args}
use pherix.Errors.{is_ok, Exec, ◌>>◌}
use pherix.Transaction.{is_open}
use pherix.Runtime.State.{Env, State, guard_open, guard_thread}
use pherix.Runtime.Record.{record_tool_call, approve_irreversible}
use pherix.Runtime.Unwind.{rollback}
use pherix.Runtime.Commit.{commit_txn}

-- The action raises and leaves the state as it was.
abbrev pub Refuses : {W A : Type 0} → Exec (State W) A → State W → Type 0
Refuses m s = (is_ok (m s).0 ≡ false) × ((m s).1 ≡ s)

-- `_guard_open` refuses.
abbrev pub is_closed : {W : Type 0} → State W → Bool
is_closed s = s.finished || not (is_open s.txn.state)

module _ {W : Type 0} (env : Env W) where
  guards-Refuses :
      {A : Type 0} (k : Exec (State W) A) (s : State W)
      → is_closed s ≡ true
      → Refuses (guard_thread env >> (guard_open >> k)) s
  unfolding guard_thread guard_open
  guards-Refuses k s closed = ground arith

  -- On a transaction that is finished, or whose state is not OPEN, recording a call, approving an
  -- effect, committing and rolling back each raise, and leave the state and the world as they were.
  pub closed-Refuses :
      (wait : W → W) (pending_approval : Bool) (tool : String) (args : Args) (effect_id : String)
      (s : State W)
      → is_closed s ≡ true
      → Refuses (record_tool_call env tool args) s
        × Refuses (approve_irreversible env effect_id) s
        × Refuses (commit_txn env wait pending_approval) s
        × Refuses (rollback env) s
  unfolding record_tool_call approve_irreversible commit_txn rollback
  closed-Refuses wait pending_approval tool args effect_id s closed = (
    guards-Refuses _ s closed,
    guards-Refuses _ s closed,
    guards-Refuses _ s closed,
    guards-Refuses _ s closed,
  )
