-- ===== src/Transaction.antt =====
-- pherix/core/transaction.py: the state machine that owns the ordered effect journal. The policy
-- object that a Transaction also holds is the runtime's, which never reads it from here.
use pherix.Base.{
  ℤ, pos, String, Bool, true, false, Option, List, [], ◌∷◌, ◌++◌, length, if◌then◌else◌,
}
use pherix.Effects.{Effect}
use pherix.Errors.{Exec, ok, err, transaction_state}

pub data TxnState : Type 0 where
  open_ staged committed rolled_back partial stuck : TxnState

pub record Transaction : Type 0 where
  pub txn_id : String
  pub state : TxnState
  pub effects : List Effect
  pub replayed_from : Option String

-- `to in _ALLOWED_TRANSITIONS.get(from, set())`
unfoldable pub allowed : TxnState → TxnState → Bool
allowed TxnState.open_ TxnState.staged = true
allowed TxnState.open_ TxnState.committed = true
allowed TxnState.open_ TxnState.rolled_back = true
allowed TxnState.staged TxnState.committed = true
allowed TxnState.staged TxnState.partial = true
allowed TxnState.partial TxnState.rolled_back = true
allowed TxnState.partial TxnState.stuck = true
allowed _ _ = false

abbrev pub is_open : TxnState → Bool
is_open TxnState.open_ = true
is_open _ = false

unfoldable pub next_index : Transaction → ℤ
next_index t = pos (length t.effects)

unfoldable pub add_effect : Effect → Exec Transaction (Unit {0})
add_effect e t =
    if is_open t.state
    then (ok tt, record t { effects = t.effects ++ e ∷ [] })
    else (err transaction_state, t)

unfoldable pub transition : TxnState → Exec Transaction (Unit {0})
unfolding allowed
transition to t =
    if allowed t.state to then (ok tt, record t { state = to }) else (err transaction_state, t)
