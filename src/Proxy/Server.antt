-- ===== src/Proxy/Server.antt =====
-- `MCPServer`: the handlers, and the dispatch of one request.
use pherix.Base.{
  String, Bool, true, false, Option, none, some, List, [], ◌∷◌, Dict, get, contains, if◌then◌else◌,
}
use pherix.Values.{Value, Entries, null, str, dict, no_entry, entry, Args, is_text}
use pherix.Effects.{Outcome}
use pherix.Errors.{Result, ok, err}
use pherix.Adapter.{ToolSpec}
use pherix.Audit.{record_approval}
use pherix.Runtime.State.{Env}
use pherix.Session.{Process, Agent, Naming, agent_txn, begin_adapters}
use pherix.Session.DryRun.{DryRunResult, dry_run}
use pherix.Proxy.{
  Gateway, Session, env_for, policy_for, Reply, Handled, fails, replies, Response, result, error,
  server_info, pong, tool_names, committed, refused, speculated, approved, field_of, is_truthy,
  object_or_empty, text_in, refusal_code, invalid_request, method_not_found, invalid_params,
  internal_error, tool_not_found, unknown_approval_token,
}

abbrev pub first_of : Option String → Option String → Option String
first_of none b = b
first_of (some a) b = some a

abbrev pub name_in : Option Value → Option String
name_in (some (dict info)) = text_in (field_of "name" info)
name_in _ = none

-- `clientInfo.name`, or else `identity`.
unfoldable pub identity_of : Entries → Option String
unfolding field_of
identity_of params =
    first_of (name_in (field_of "clientInfo" params)) (text_in (field_of "identity" params))

abbrev pub settled_version : Option String → String
settled_version none = "2025-06-18"
settled_version (some v) =
    if contains v ("2024-11-05" ∷ "2025-03-26" ∷ "2025-06-18" ∷ []) then v else "2025-06-18"

unfoldable pub protocol_version : Entries → String
unfolding field_of
protocol_version params = settled_version (text_in (field_of "protocolVersion" params))

abbrev pub names_in : {W : Type 0} → Dict (ToolSpec W) → List String
names_in [] = []
names_in ((name, spec) ∷ registry) = name ∷ names_in registry

abbrev pub args_of : Entries → Args
args_of no_entry = []
args_of (entry k v vs) = (k, v) ∷ args_of vs

-- The block: the one call, whose raise leaves it.
abbrev pub after_call : Result Outcome → Agent
after_call (ok o) = Agent.returns
after_call (err x) = Agent.raises x

abbrev pub one_call : String → Entries → Agent
one_call name arguments = Agent.calls name (args_of arguments) after_call

abbrev pub wants_dry_run : Entries → Bool
wants_dry_run params = elim (field_of "_pherix_dry_run" params) [
  | none ↦ false
  | some v ↦ is_truthy v
]

abbrev pub respond : Value → Handled → Response
respond id (fails code) = error id code
respond id (replies reply) = result id reply

abbrev pub is_version_2 : Option Value → Bool
is_version_2 none = false
is_version_2 (some v) = is_text v "2.0"

module _ {W : Type 0} (g : Gateway W) (txn_ids : Naming) (wait : W → W) where
  abbrev pub naming : Option String → Naming
  naming identity = record txn_ids { client_id = identity }

  -- The transaction that a refusal names: none where `begin` has raised.
  abbrev pub opened_id : Env W → Process W → Option String
  opened_id env p = elim (begin_adapters env txn_ids p.world).0 [
    | ok _ ↦ some (txn_ids.txn_id p.drawn)
    | err x ↦ none
  ]

  abbrev pub commit_reply : Env W → Process W → Result (Unit {0}) → Reply
  commit_reply env p (ok _) = committed (txn_ids.txn_id p.drawn)
  commit_reply env p (err x) = refused (refusal_code x) (opened_id env p)

  unfoldable pub dispatch_commit :
      Option String → String → Entries → Process W → Handled × Process W
  unfolding agent_txn policy_for begin_adapters refusal_code
  dispatch_commit identity name arguments p =
      let env = env_for g identity in
      let (r, p') = agent_txn env (naming identity) wait (one_call name arguments) p in
      (replies (commit_reply env p r), p')

  abbrev pub dry_reply : Result (Option DryRunResult) → Handled
  dry_reply (ok (some report)) = replies (speculated report)
  dry_reply (ok none) = fails internal_error
  dry_reply (err x) = replies (refused (refusal_code x) none)

  unfoldable pub dispatch_dry_run :
      Option String → String → Entries → Process W → Handled × Process W
  unfolding dry_run policy_for refusal_code
  dispatch_dry_run identity name arguments p =
      let (r, p') =
        dry_run (env_for g identity) (naming identity) wait (one_call name arguments) p in
      (dry_reply r, p')

  -- `_tools_call`, with its guards.
  abbrev pub with_arguments :
      Session → String → Entries → Option Entries → Process W → Handled × Process W
  with_arguments s name params none p = (fails invalid_params, p)
  with_arguments s name params (some arguments) p =
      if wants_dry_run params
      then dispatch_dry_run s.identity name arguments p
      else dispatch_commit s.identity name arguments p

  abbrev pub known_tool :
      Session → String → Entries → Option (ToolSpec W) → Process W → Handled × Process W
  known_tool s name params none p = (fails tool_not_found, p)
  known_tool s name params (some spec) p =
      with_arguments s name params (object_or_empty "arguments" params) p

  abbrev pub named_call : Session → Entries → Option String → Process W → Handled × Process W
  named_call s params none p = (fails invalid_params, p)
  named_call s params (some name) p = known_tool s name params (get name g.base.registry) p

  unfoldable pub tools_call : Session → Entries → Process W → Handled × Process W
  unfolding field_of object_or_empty dispatch_commit dispatch_dry_run
  tools_call s params p = named_call s params (text_in (field_of "name" params)) p

  -- `_approve`
  abbrev pub approver_of : Session → Option Value → Option (Option String)
  approver_of s none = some s.identity
  approver_of s (some null) = some s.identity
  approver_of s (some (str approver)) = some (some approver)
  approver_of s (some _) = none

  abbrev pub approve_token : String → Option (Option String) → Process W → Handled × Process W
  approve_token token none p = (fails invalid_params, p)
  approve_token token (some approver) p =
      let (r, audit) = record_approval token approver p.audit in
      elim r [
        | ok row ↦ (replies (approved row), record p { audit = audit })
        | err x ↦ (fails unknown_approval_token, record p { audit = audit })
      ]

  abbrev pub named_token : Session → Entries → Option String → Process W → Handled × Process W
  named_token s params none p = (fails invalid_params, p)
  named_token s params (some token) p =
      approve_token token (approver_of s (field_of "approver" params)) p

  unfoldable pub approve : Session → Entries → Process W → Handled × Process W
  unfolding field_of record_approval
  approve s params p = named_token s params (text_in (field_of "token" params)) p

  abbrev pub keeps : Session → Handled × Process W → Handled × Session × Process W
  keeps s (h, p) = (h, s, p)

  -- The branches of `handle` on the method.
  unfoldable pub dispatch : Value → Session → Entries → Process W → Handled × Session × Process W
  unfolding identity_of protocol_version tools_call approve
  dispatch method s params p =
      if is_text method "initialize"
      then (
        replies (server_info (protocol_version params)),
        record { identity = identity_of params; is_initialized = true },
        p,
      )
      else if is_text method "ping"
      then (replies pong, s, p)
      else if is_text method "tools/list"
      then (replies (tool_names (names_in g.base.registry)), s, p)
      else if is_text method "tools/call"
      then keeps s (tools_call s params p)
      else if is_text method "pherix/approve"
      then keeps s (approve s params p)
      else (fails method_not_found, s, p)

  abbrev pub answer : Value → Handled × Session × Process W → Option Response × Session × Process W
  answer id (h, s, p) = (some (respond id h), s, p)

  abbrev pub with_params :
      Option Value
      → Value
      → Session
      → Option Entries
      → Process W
      → Option Response × Session × Process W
  with_params none method s none p = (none, s, p)
  with_params (some id) method s none p = (some (error id invalid_params), s, p)
  with_params none method s (some params) p = (none, s, p)
  with_params (some id) method s (some params) p = answer id (dispatch method s params p)

  abbrev pub bad_request :
      Option Value → Session → Process W → Option Response × Session × Process W
  bad_request none s p = (none, s, p)
  bad_request (some id) s p = (some (error id invalid_request), s, p)

  abbrev pub with_method :
      Option Value
      → Bool
      → Option Value
      → Session
      → Entries
      → Process W
      → Option Response × Session × Process W
  with_method id true (some method) s request p =
      with_params id method s (object_or_empty "params" request) p
  with_method id _ _ s request p = bad_request id s p

  unfoldable pub handle : Session → Entries → Process W → Option Response × Session × Process W
  unfolding field_of object_or_empty dispatch
  handle s request p =
      with_method (field_of "id" request) (is_version_2 (field_of "jsonrpc" request))
        (field_of "method" request) s request p
