-- ===== src/Compensators.antt =====
-- pherix/compensators: the catalog of actions on services with the tools that undo them. The client
-- of a service is a parameter, which the tools call by the names of its methods; `bind_args` of the
-- wrapper is the call with the journalled keyword arguments.
pub mod Laws
pub mod Undo
use pherix.Base.{
  String, Bool, true, false, ◌&&◌, ◌||◌, Option, none, some, List, [], ◌∷◌, ◌==◌, Dict, get, map,
  all, any, if◌then◌else◌,
}
use pherix.Values.{Value, null, str, Args}
use pherix.Effects.{Effect}
use pherix.Errors.{Result, err, raised}
use pherix.Adapter.{Run, ToolSpec, Marks}

-- A method of the client, by its name, on values.
abbrev pub Client : Type 0 → Type 0
Client W = String → List Value → W → Result Value × W

-- A parameter of a tool, with its default.
abbrev pub Param : Type 0
Param = String × Option Value

-- A tool of the catalog: its parameters, and the method it calls with some of them.
pub record Listing : Type 0 where
  pub name : String
  pub resource : String
  pub params : List Param
  pub method : String
  pub passes : List String
  pub compensator : Option String

abbrev pub has_value : Args → Param → Bool
has_value args (name, some default) = true
has_value args (name, none) = elim (get name args) [ none ↦ false | some v ↦ true ]

abbrev pub is_param : List Param → String × Value → Bool
is_param params (name, v) = any (λ (p : Param). p.0 == name) params

-- Whether `fn(**args)` binds.
unfoldable pub fits : List Param → Args → Bool
fits params args = all (has_value args) params && all (is_param params) args

abbrev default_of : String → List Param → Value
default_of name [] = null
default_of name ((n, some v) ∷ params) = if n == name then v else default_of name params
default_of name ((n, none) ∷ params) = default_of name params

unfoldable pub argument : List Param → Args → String → Value
argument params args name = elim (get name args) [ none ↦ default_of name params | some v ↦ v ]

abbrev no_marks : Marks
no_marks = record { read_keys = []; write_keys = []; snapshot = none }

abbrev pub called : {W : Type 0} → Result Value × W → Run W
called (r, w) = record { result = r; marks = no_marks; world = w }

module _ {W : Type 0} (client : Client W) where
  unfoldable pub call_client : Listing → Effect → W → Run W
  unfolding fits argument
  call_client t e w =
      if fits t.params e.args
      then called (client t.method (map (argument t.params e.args) t.passes) w)
      else called (err (raised "TypeError"), w)

  -- A tool as it is registered: irreversible, without an injected handle.
  abbrev pub tool_of : Listing → ToolSpec W
  tool_of t = record {
    name = t.name;
    fn = call_client t;
    resource = t.resource;
    reversible = false;
    compensator = t.compensator;
  }

-- An action, and the tool that undoes it, which takes the same arguments.
pub record Pair : Type 0 where
  pub action : Listing
  pub inverse : Listing

abbrev paired :
    String → String → String → List Param → String → String → List String → List String → Pair
paired resource action inverse params method undo passes undo_passes = record {
  action = record {
    name = action;
    resource = resource;
    params = params;
    method = method;
    passes = passes;
    compensator = some inverse;
  };
  inverse = record {
    name = inverse;
    resource = resource;
    params = params;
    method = undo;
    passes = undo_passes;
    compensator = none;
  };
}

abbrev pub charge_refund : Pair
charge_refund =
    paired "payments" "charge" "refund"
      (("idempotency_key", none) ∷ ("amount_cents", none) ∷ ("currency", some (str "usd")) ∷ [])
      "charge" "refund" ("idempotency_key" ∷ "amount_cents" ∷ "currency" ∷ [])
      ("idempotency_key" ∷ [])

abbrev pub payout_reverse : Pair
payout_reverse =
    paired "payments" "payout" "reverse_payout"
      (("payout_id", none) ∷ ("amount_cents", none) ∷ ("destination", none) ∷ []) "payout"
      "reverse_payout" ("payout_id" ∷ "amount_cents" ∷ "destination" ∷ []) ("payout_id" ∷ [])

abbrev pub invite_revoke : Pair
invite_revoke =
    paired "identity" "invite" "revoke_invite"
      (("invite_id", none) ∷ ("email", none) ∷ ("org", none) ∷ []) "invite" "revoke_invite"
      ("invite_id" ∷ "email" ∷ "org" ∷ []) ("invite_id" ∷ [])

abbrev pub grant_revoke_role : Pair
grant_revoke_role =
    paired "identity" "grant_role" "revoke_role" (("principal", none) ∷ ("role", none) ∷ [])
      "grant_role" "revoke_role" ("principal" ∷ "role" ∷ []) ("principal" ∷ "role" ∷ [])

abbrev pub create_delete_resource : Pair
create_delete_resource =
    paired "provisioning" "create_resource" "delete_resource"
      (("resource_id", none) ∷ ("kind", none) ∷ ("spec", none) ∷ []) "create_resource"
      "delete_resource" ("resource_id" ∷ "kind" ∷ "spec" ∷ []) ("resource_id" ∷ [])

abbrev pub scale_up_down : Pair
scale_up_down =
    paired "provisioning" "scale_up" "scale_down"
      (("target", none) ∷ ("from_replicas", none) ∷ ("to_replicas", none) ∷ []) "scale" "scale"
      ("target" ∷ "to_replicas" ∷ []) ("target" ∷ "from_replicas" ∷ [])

abbrev pub github_pr : Pair
github_pr =
    paired "github" "create_pr" "close_pr"
      (("repo", none) ∷ ("branch", none) ∷ ("title", none) ∷ ("body", none) ∷ []) "create_pr"
      "close_pr" ("repo" ∷ "branch" ∷ "title" ∷ "body" ∷ []) ("repo" ∷ "branch" ∷ [])

abbrev pub github_label : Pair
github_label =
    paired "github" "add_label" "remove_label"
      (("repo", none) ∷ ("issue", none) ∷ ("label", none) ∷ []) "add_label" "remove_label"
      ("repo" ∷ "issue" ∷ "label" ∷ []) ("repo" ∷ "issue" ∷ "label" ∷ [])

abbrev pub slack_message : Pair
slack_message =
    paired "slack" "post_message" "delete_message"
      (("channel", none) ∷ ("ts", none) ∷ ("text", none) ∷ []) "post_message" "delete_message"
      ("channel" ∷ "ts" ∷ "text" ∷ []) ("channel" ∷ "ts" ∷ [])

abbrev pub stripe_customer : Pair
stripe_customer =
    paired "stripe" "create_customer" "delete_customer"
      (("customer_id", none) ∷ ("email", none) ∷ []) "create_customer" "delete_customer"
      ("customer_id" ∷ "email" ∷ []) ("customer_id" ∷ [])

abbrev pub sendgrid_contact : Pair
sendgrid_contact =
    paired "sendgrid" "add_contact" "remove_contact" (("list_id", none) ∷ ("email", none) ∷ [])
      "add_contact" "remove_contact" ("list_id" ∷ "email" ∷ []) ("list_id" ∷ "email" ∷ [])

abbrev pub jira_create_delete_issue : Pair
jira_create_delete_issue =
    paired "jira" "create_issue" "delete_issue"
      (("issue_key", none) ∷ ("project", none) ∷ ("summary", none) ∷ []) "create_issue"
      "delete_issue" ("issue_key" ∷ "project" ∷ "summary" ∷ []) ("issue_key" ∷ [])

abbrev pub send_email_gate : Listing
send_email_gate = record {
  name = "send_email";
  resource = "identity";
  params = ("to", none) ∷ ("subject", none) ∷ ("body", none) ∷ [];
  method = "send_email";
  passes = "to" ∷ "subject" ∷ "body" ∷ [];
  compensator = none;
}

abbrev pub twilio_sms_gate : Listing
twilio_sms_gate = record {
  name = "send_sms";
  resource = "twilio";
  params = ("to", none) ∷ ("body", none) ∷ [];
  method = "send_sms";
  passes = "to" ∷ "body" ∷ [];
  compensator = none;
}

abbrev pub catalog : List Pair
catalog =
    charge_refund ∷ payout_reverse ∷ invite_revoke ∷ grant_revoke_role ∷ create_delete_resource
    ∷ scale_up_down ∷ github_pr ∷ github_label ∷ slack_message ∷ stripe_customer ∷ sendgrid_contact
    ∷ jira_create_delete_issue ∷ []

abbrev pub gates : List Listing
gates = send_email_gate ∷ twilio_sms_gate ∷ []

module _ {W : Type 0} (client : Client W) where
  abbrev pub listed : List Listing → Dict (ToolSpec W)
  listed [] = []
  listed (t ∷ ts) = (t.name, tool_of client t) ∷ listed ts

  -- The tools that the pairs register, the inverse first.
  abbrev pub registered_pairs : List Pair → Dict (ToolSpec W)
  registered_pairs [] = listed gates
  registered_pairs (p ∷ ps) =
      (p.inverse.name, tool_of client p.inverse)
      ∷ (p.action.name, tool_of client p.action)
      ∷ registered_pairs ps
