-- ===== src/Adapter.antt =====
-- pherix/core/adapters/base.py: what the runtime uses of a resource adapter and of a tool, over a
-- state `W` of the outside world. A registered tool is client code, and so is a parameter; each
-- action may raise and may change the world all the same.
use pherix.Base.{ℕ, String, Bool, Option, List, Dict, [], ◌∷◌, ◌==ℕ◌, any, if◌then◌else◌}
use pherix.Values.{Value, Key, Version, KeyEntry, Snapshot}
use pherix.Effects.{Effect}
use pherix.Errors.{Result, Exec}
use pherix.Policy.Context.{ReadKey}

-- What a run of a tool leaves on the effect: the keys that its handle recorded, and the snapshot,
-- whose payload the handle of a filesystem mutates.
pub record Marks : Type 0 where
  pub read_keys : List KeyEntry
  pub write_keys : List KeyEntry
  pub snapshot : Option Snapshot

pub record Run (W : Type 0) : Type 0 where
  pub result : Result Value
  pub marks : Marks
  pub world : W

-- `ToolSpec.fn`, called with a handle that its adapter injects.
abbrev pub ToolFn : Type 0 → Type 0
ToolFn W = Effect → W → Run W

-- `ToolSpec`: `comparator` belongs to the replay, and `bind_args` to Python's call syntax.
pub record ToolSpec (W : Type 0) : Type 0 where
  pub name : String
  pub fn : ToolFn W
  pub resource : String
  pub reversible : Bool
  pub compensator : Option String

-- `ResourceAdapter`, with the optional protocols that it may speak.
pub record Adapter (W : Type 0) : Type 0 where
  -- `id(adapter)`
  pub ident : ℕ
  pub name : String
  pub supports_rollback : Bool
  pub snapshot : Effect → Exec W Snapshot
  pub apply : Effect → ToolFn W → W → Run W
  pub restore : Snapshot → Exec W (Unit {0})
  -- whether it is a `TransactionalResourceAdapter`
  pub transactional : Bool
  pub begin_txn : Exec W (Unit {0})
  pub commit_txn : Exec W (Unit {0})
  pub rollback_txn : Exec W (Unit {0})
  pub read_version : Key → W → Result Version
  -- the method of that name, where the adapter has one
  pub reads_committed_only : Option Bool
  -- the query of `.conn`, where the adapter has a connection
  pub conn : Option (ReadKey → W → Result (Option Value))

module _ {W : Type 0} where
  abbrev pub unique_aux : List ℕ → Dict (Adapter W) → List (Adapter W)
  unique_aux seen [] = []
  unique_aux seen ((k, a) ∷ d) =
      if any (λ j. j ==ℕ a.ident) seen then unique_aux seen d else a ∷ unique_aux (a.ident ∷ seen) d

  -- `_unique`: the distinct adapter instances, in order.
  abbrev pub unique : Dict (Adapter W) → List (Adapter W)
  unique d = unique_aux [] d
