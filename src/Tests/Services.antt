-- ===== src/Tests/Services.antt =====
-- The catalog of compensators over services that keep what was made last, and a number of replicas.
use pherix.Base.{
  String, ◌≡◌, refl, Bool, true, false, none, some, List, [], ◌∷◌, ◌==◌, pos, contains,
  if◌then◌else◌,
}
use mathlib.Core.List.Memᴰ.{head, tail}
use pherix.Values.{Value, null, int, str}
use pherix.Effects.{Effect, EffectStatus, Outcome}
use pherix.Errors.{ok, err, raised, stage}
use pherix.Transaction.{TxnState}
use pherix.Policy.Engine.{allow_all}
use pherix.Adapter.{Adapter}
use pherix.Isolation.{abort}
use pherix.Runtime.State.{Env, State}
use pherix.Runtime.Unwind.{unwind_effect}
use pherix.Compensators.{Client, scale_up_down, catalog, registered_pairs}
use pherix.Compensators.Laws.{IsLeftInverse}
use pherix.Compensators.Undo.{catalog_undoes}

record Services : Type 0 where
  made : List (List Value)
  replicas : Value

abbrev drop_newest : List (List Value) → List (List Value)
drop_newest [] = []
drop_newest (x ∷ xs) = xs

abbrev set_replicas : List Value → Services → Services
set_replicas (target ∷ n ∷ []) w = record w { replicas = n }
set_replicas values w = w

abbrev actions : List String
actions =
    "charge" ∷ "payout" ∷ "invite" ∷ "grant_role" ∷ "create_resource" ∷ "create_pr" ∷ "add_label"
    ∷ "post_message" ∷ "create_customer" ∷ "add_contact" ∷ "create_issue" ∷ []

abbrev client : Client Services
client method values w = (
  ok null,
  if method == "scale"
      then set_replicas values w
      else if contains method actions
      then record w { made = values ∷ w.made }
      else record w { made = drop_newest w.made },
)

-- Scaling is ready where the replicas are the first ones that the call names.
abbrev ReadyIf : Bool → List Value → Services → Type 0
ReadyIf true (target ∷ from ∷ to ∷ []) w = w.replicas ≡ from
ReadyIf scales values w = Unit

abbrev Ready : String → List Value → Services → Type 0
Ready action = ReadyIf (action == "scale_up")

client-IsLeftInverse : IsLeftInverse client Ready
client-IsLeftInverse = record {
  refund = λ key amount currency w ready. refl;
  reverse_payout = λ id amount to w ready. refl;
  revoke_invite = λ id email org w ready. refl;
  revoke_role = λ principal role w ready. refl;
  delete_resource = λ id kind spec w ready. refl;
  scale_back = λ target from to w ready. rw ready refl;
  close_pr = λ repo branch title body w ready. refl;
  remove_label = λ repo issue label w ready. refl;
  delete_message = λ channel ts text w ready. refl;
  delete_customer = λ id email w ready. refl;
  remove_contact = λ id email w ready. refl;
  delete_issue = λ key project summary w ready. refl;
}

-- An adapter without snapshots, which runs a tool as it is.
abbrev services : Adapter Services
services = record {
  ident = 0;
  name = "provisioning";
  supports_rollback = false;
  snapshot = λ e w. (err (raised "NotImplementedError"), w);
  apply = λ e f w. f e w;
  restore = λ h w. (err (raised "NotImplementedError"), w);
  transactional = false;
  begin_txn = λ w. (ok tt, w);
  commit_txn = λ w. (ok tt, w);
  rollback_txn = λ w. (ok tt, w);
  read_version = λ k w. err (raised "NotImplementedError");
  reads_committed_only = none;
  conn = none;
}

abbrev env : Env Services
env = record {
  adapters = ("provisioning", services) ∷ [];
  registry = registered_pairs client catalog;
  policy = allow_all;
  digest = record { effect_id = λ t i f a. "e"; approval_token = λ t e. "token" };
  isolation = abort;
  in_run_txn = false;
  dry_run = false;
  actor = none;
  active_actor = none;
  owner_thread = 1;
  thread = 1;
}

-- Two replicas are made three.
abbrev scaled : Effect
scaled = record {
  txn_id = "t";
  index = pos 0;
  tool = "scale_up";
  args = ("target", str "api") ∷ ("from_replicas", int (pos 2)) ∷ ("to_replicas", int (pos 3)) ∷ [];
  resource = "provisioning";
  reversible = false;
  effect_id = "e";
  read_keys = [];
  write_keys = [];
  status = EffectStatus.applied;
  snapshot = none;
  result = Outcome.returned null;
  compensator = some "scale_down";
  actor = none;
}

abbrev with_replicas : Value → State Services
with_replicas n = record {
  txn = record {
    txn_id = "t";
    state = TxnState.open_;
    effects = scaled ∷ [];
    replayed_from = none;
  };
  audit = record { transactions = []; effects = []; approvals = []; verdicts = []; conflicts = [] };
  approvals = [];
  finished = false;
  pending = false;
  context = record {
    journal = [];
    phase = stage;
    reader = none;
    totals = [];
    spent = λ store name period. pos 0;
    today = "2026-01-01";
  };
  stage_verdicts = [];
  world = record { made = []; replicas = n };
}

catalog_undoes_example :
    (unwind_effect env scaled (with_replicas (int (pos 3)))).1.world
    ≡ record { made = []; replicas = int (pos 2) }
unfolding pherix.Compensators.fits pherix.Compensators.argument pherix.Compensators.call_client
catalog_undoes_example =
    catalog_undoes client Ready client-IsLeftInverse env services (λ c f w. refl) refl scale_up_down
      (tail (tail (tail (tail (tail (head refl)))))) refl scaled (with_replicas (int (pos 3)))
      (record { made = []; replicas = int (pos 2) }) refl refl refl refl refl refl
