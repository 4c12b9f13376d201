-- ===== src/Proxy.antt =====
-- pherix/frontends/proxy/gateway.py and pherix/frontends/proxy/server.py: the JSON-RPC session of an
-- MCP client in front of the runtime. The texts of messages, the descriptors of `tools/list` beside
-- the names, and the rendering of results are left out; the gateway has a shared journal.
pub mod Server
pub mod Protocol
pub mod Speculation
use pherix.Base.{
  ℤ, pos, negsuc, String, Bool, true, false, not, ◌||◌, Option, none, some, List, [], ◌∷◌, ◌==◌,
  ◌==ℤ◌, Dict, get, contains, if◌then◌else◌,
}
use pherix.Values.{
  Value, Elements, Entries, null, bool, int, str, list, dict, no_element, element, no_entry, entry,
}
use pherix.Errors.{
  Exc, policy_violation, gate_blocked, isolation_conflict, compensator_not_registered,
}
use pherix.Isolation.{abort}
use pherix.Policy.Engine.{Policy}
use pherix.Runtime.State.{Env}
use pherix.Audit.{ApprovalRow}
use pherix.Session.DryRun.{DryRunResult}

-- `PherixGateway`, with what a transaction takes beside the policy and the actor.
pub record Gateway (W : Type 0) : Type 0 where
  pub base : Env W
  pub policies : Dict Policy
  pub default_policy : Policy

-- The session: `MCPServer`.
pub record Session : Type 0 where
  pub identity : Option String
  pub is_initialized : Bool

unfoldable pub policy_for : {W : Type 0} → Gateway W → Option String → Policy
policy_for g none = g.default_policy
policy_for g (some identity) = elim (get identity g.policies) [
  | none ↦ g.default_policy
  | some policy ↦ policy
]

-- The environment of a transaction of the session, which `agent_txn` opens under the default
-- isolation, and whose actor it takes as the active one.
abbrev pub env_for : {W : Type 0} → Gateway W → Option String → Env W
env_for g identity = record g.base {
  policy = policy_for g identity;
  isolation = abort;
  actor = identity;
  active_actor = identity;
}

-- The error codes of JSON-RPC and of the gateway.
abbrev pub invalid_request : ℤ
invalid_request = negsuc 32599

abbrev pub method_not_found : ℤ
method_not_found = negsuc 32600

abbrev pub invalid_params : ℤ
invalid_params = negsuc 32601

abbrev pub internal_error : ℤ
internal_error = negsuc 32602

abbrev pub tool_not_found : ℤ
tool_not_found = negsuc 32003

abbrev pub unknown_approval_token : ℤ
unknown_approval_token = negsuc 32006

-- `_REFUSAL_CODES`
unfoldable pub refusal_code : Exc → ℤ
refusal_code (policy_violation v) = negsuc 32000
refusal_code (gate_blocked ids) = negsuc 32001
refusal_code (isolation_conflict ks) = negsuc 32002
refusal_code (compensator_not_registered t c) = negsuc 32004
refusal_code _ = negsuc 32005

-- What a handler returns, without its texts.
pub data Reply : Type 0 where
  server_info : String → Reply
  pong : Reply
  tool_names : List String → Reply
  -- `isError` is false; the transaction is committed
  committed : String → Reply
  -- `isError` is true; the code, and the transaction where there is one
  refused : ℤ → Option String → Reply
  speculated : DryRunResult → Reply
  approved : ApprovalRow → Reply

-- A handler raises an `MCPError` with a code, or replies.
pub data Handled : Type 0 where
  fails : ℤ → Handled
  replies : Reply → Handled

pub data Response : Type 0 where
  result : Value → Reply → Response
  error : Value → ℤ → Response

-- `d.get(k)` of a JSON object.
unfoldable pub field_of : String → Entries → Option Value
field_of k no_entry = none
field_of k (entry j v vs) = if j == k then some v else field_of k vs

-- The truth of a Python value.
abbrev pub is_truthy : Value → Bool
is_truthy null = false
is_truthy (bool b) = b
is_truthy (int n) = not (n ==ℤ pos 0)
is_truthy (str s) = not (s == "")
is_truthy (list no_element) = false
is_truthy (list (element v vs)) = true
is_truthy (dict no_entry) = false
is_truthy (dict (entry k v vs)) = true

-- `d.get(k) or {}`, and whether it is an object.
abbrev object_in : Value → Option Entries
object_in (dict es) = some es
object_in v = if is_truthy v then none else some no_entry

unfoldable pub object_or_empty : String → Entries → Option Entries
unfolding field_of
object_or_empty k es = elim (field_of k es) [ none ↦ some no_entry | some v ↦ object_in v ]

abbrev pub text_in : Option Value → Option String
text_in (some (str s)) = some s
text_in _ = none
