-- ===== src/Proxy/Engine.antt =====
-- The authorization engine: DefaultEngine.Handle and defaultHeaderBuilder of
-- internal/authz/engine.go, with the types of decision.go and internal/policy. The resolver, the
-- policy, the plugins and a header builder are functions; a nil body is "", a nil header map is
-- empty. Spans are left out; the calls of the metric AuthDecision are returned.
pub mod Closed
pub mod Obligations
use Prim.Native.Char.{Char}
use Prim.Native.String.{◌++◌}
use accessgate.Base.{
  ℕ, String, ◌==◌, Bool, true, false, not, ◌&&◌, Option, none, some, List, [], ◌∷◌, is_empty,
  if◌then◌else◌,
}
use accessgate.Base.Text.{has_prefix, trim_prefix, replace, strip_line_breaks, join}
use accessgate.Base.Dict.{Dict, lookup, insert, insert_all}
use accessgate.Base.Result.{Result, ok, err}
use accessgate.Claims.{Value, text, Claims, entries, text_or_empty}
use accessgate.Token.{Principal}
use accessgate.Proxy.Request.{Request}

pub record Decision : Type 0 where
  pub allow : Bool
  pub status_code : ℕ
  pub headers : Dict String
  pub reason : String
  pub obligations : Claims

-- policy.Input
pub record Input : Type 0 where
  pub protocol : String
  pub method : String
  pub path : String
  pub graphql_operation : String
  pub grpc_service : String
  pub grpc_method : String
  pub principal : Option Principal
  pub headers : Dict String

-- authz.Response without SetCookies, which no code sets.
pub record Response : Type 0 where
  pub allow : Bool
  pub upstream_headers : Dict String
  pub status_code : ℕ
  pub body : String
  pub redirect_to : String

abbrev pub Plugin : Type 0
Plugin = Request → Option Principal → Result (Option Decision)

pub record Engine : Type 0 where
  pub resolver : Request → Result (Option Principal)
  pub policy : Input → Result (Option Decision)
  pub pipeline_plugins : List (Option Plugin)
  pub require_auth : Bool
  pub header_builder : Option (Principal → Claims → Dict String)
  pub unauthenticated_mode : String
  pub login_redirect_url : String

-- A response and the calls of the metric, each with `allow` and the status.
abbrev pub Handled : Type 0
Handled = Response × List (Bool × ℕ)

abbrev pub denied : ℕ → String → Response
denied status body = record {
  allow = false;
  upstream_headers = [];
  status_code = status;
  body = body;
  redirect_to = "";
}

abbrev error_body : String → String
error_body message = "{\"errors\":[{\"message\":\"" ++ (message ++ "\"}]}")

abbrev dash : Char
dash = "-"

-- What an obligation makes of a header's name: "set_header_X_User" gives "X-User".
unfoldable pub header_name : String → String
header_name k = strip_line_breaks (replace b'_' dash (trim_prefix k "set_header_"))

-- One round of the loop over the obligations.
unfoldable pub apply_obligation : String → Value → Dict String → Dict String
unfolding header_name
apply_obligation k (text v) h =
    if has_prefix k "set_header_" then insert (header_name k) (strip_line_breaks v) h else h
apply_obligation k _ h = h

unfoldable pub apply_obligations : Dict Value → Dict String → Dict String
unfolding apply_obligation
apply_obligations [] h = h
apply_obligations ((k, v) ∷ more) h = apply_obligations more (apply_obligation k v h)

unfoldable pub set_text : String → String → Dict String → Dict String
set_text name v h = if v == "" then h else insert name v h

unfoldable pub default_header_builder : Principal → Claims → Dict String
unfolding set_text entries
default_header_builder p obligations =
    let auth =
      if p.access_token == ""
      then []
      else insert "Authorization" ("Bearer " ++ p.access_token) [] in
    let user = set_text "X-User-Id" p.subject auth in
    let roles = if is_empty p.roles then user else insert "X-Roles" (join "," p.roles) user in
    let claim : String → String = λ k. text_or_empty (lookup k (entries p.claims)) in
    let email = set_text "X-User-Email" (claim "email") roles in
    let name = set_text "X-User-Full-Name" (claim "name") email in
    let preferred = set_text "X-User-Preferred-Username" (claim "preferred_username") name in
    set_text "X-Tenant-Id" (text_or_empty (lookup "tenant_id" (entries p.tenant_context))) preferred

-- The first decision of the plugins; a nil plugin is passed over.
unfoldable pub plugin_decision :
    List (Option Plugin) → Request → Option Principal → Result (Option Decision)
plugin_decision [] req p = ok none
plugin_decision (none ∷ more) req p = plugin_decision more req p
plugin_decision (some plugin ∷ more) req p =
    let rest = plugin_decision more req p in
    elim (plugin req p) [
      | err e ↦ err e
      | ok found ↦ (elim found [ none ↦ rest | some decision ↦ ok (some decision) ])
    ]

unfoldable pub input_of : Request → Option Principal → Input
input_of req p = record {
  protocol = req.protocol;
  method = req.method;
  path = req.path;
  graphql_operation = req.graphql_operation;
  grpc_service = req.grpc_service;
  grpc_method = req.grpc_method;
  principal = p;
  headers = req.headers;
}

-- No decision denies.
abbrev pub decided : Option Decision → Decision
decided (some decision) = decision
decided none = record {
  allow = false;
  status_code = 503;
  headers = [];
  reason = "";
  obligations = none;
}

module _ (escape_json : String → String) (e : Engine) where
  unfoldable pub principal_headers : Decision → Option Principal → Dict String → Dict String
  unfolding default_header_builder
  principal_headers decision none h = h
  principal_headers decision (some p) h =
      if decision.allow
      then insert_all
          (elim e.header_builder [
            | none ↦ default_header_builder p decision.obligations
            | some build ↦ build p decision.obligations
          ])
          h
      else h

  unfoldable pub response_of : Decision → Option Principal → Response
  unfolding apply_obligations principal_headers entries
  response_of decision p = record {
    allow = decision.allow;
    upstream_headers =
        principal_headers decision p
          (apply_obligations (entries decision.obligations) (insert_all decision.headers []));
    status_code = decision.status_code;
    body =
        if not (decision.reason == "") && not decision.allow
        then error_body (escape_json decision.reason)
        else "";
    redirect_to = "";
  }

  unfoldable pub respond : Decision → Option Principal → Handled
  respond decision p =
      let resp = response_of decision p in (resp, (resp.allow, resp.status_code) ∷ [])

  -- The engine, once the plugins have answered.
  unfoldable pub evaluate : Request → Option Principal → Result (Option Decision) → Handled
  evaluate req p (err x) = (denied 503 (error_body "pipeline plugin error"), [])
  evaluate req p (ok (some decision)) = respond decision p
  evaluate req p (ok none) = elim (e.policy (input_of req p)) [
    | err x ↦ (denied 500 (error_body "policy error"), [])
    | ok found ↦ respond (decided found) p
  ]

  -- The engine without a principal where one is required.
  unfoldable pub unauthenticated : Handled
  unauthenticated =
      if e.unauthenticated_mode == "html_redirect" && not (e.login_redirect_url == "")
      then (record (denied 302 "") { redirect_to = e.login_redirect_url }, (false, 302) ∷ [])
      else (denied 401 (error_body "unauthorized"), [])

  unfoldable pub authorize : Request → Option Principal → Handled
  authorize req none =
      if e.require_auth
      then unauthenticated
      else evaluate req none (plugin_decision e.pipeline_plugins req none)
  authorize req (some p) = evaluate req (some p) (plugin_decision e.pipeline_plugins req (some p))

  unfoldable pub handle : Request → Handled
  handle req = elim (e.resolver req) [
    | err x ↦ (denied 502 (error_body "auth resolution failed"), [])
    | ok p ↦ authorize req p
  ]
