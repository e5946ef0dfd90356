-- ===== src/Proxy/Tests.antt =====
-- Runs of the proxy (internal/authz and internal/proxy), and the theorems at them.
use Prim.Native.Char.{Char}
use accessgate.Base.{Bool, false, String, ◌≡◌, refl, true, Option, none, some, List, [], ◌∷◌, All}
use accessgate.Base.Text.{
  trim_space, has_prefix, cut, trim_slash, trim_prefix, eq_fold, replace, strip_line_breaks,
}
use accessgate.Base.Dict.{Dict, lookup, insert}
use accessgate.Base.Result.{ok}
use accessgate.Claims.{Value, text, texts}
use accessgate.Token.{Principal}
use accessgate.Proxy.Routes.{plain_route, Route, match_route}
use accessgate.Proxy.Headers.{HeaderConfig}
use Prim.Native.String.{◌++◌}
use accessgate.Proxy.Graphql.{
  is_name, is_name_start, is_name_char, all_name_chars, is_ignored, read_name, next_token,
  parse_document, extract_operation,
}
use accessgate.Proxy.Graphql.Names.{ends_name, parse_document-named}
use accessgate.Proxy.Request.{Request}
use accessgate.Proxy.Engine.{
  Engine, Response, Decision, handle, authorize, evaluate, respond, response_of, apply_obligations,
  plugin_decision,
}
use accessgate.Proxy.Engine.Closed.{IsAllowed, handle-IsAllowed}
use accessgate.Proxy.Engine.Obligations.{IsOneLine, apply_obligations-IsOneLine}
use accessgate.Proxy.Forward.{is_reserved, outgoing_headers, outgoing_path}
use accessgate.Proxy.Forward.Trust.{is_withheld, outgoing_headers-withheld}
use accessgate.Proxy.Server.{Handler, proxied, handle_route, reply_to, handle_proxy, default_engine}
use accessgate.Proxy.Server.Reach.{IsProxied, handle_proxy-IsProxied}

abbrev header_config : HeaderConfig
header_config = record {
  header_user_id_claim = "sub";
  header_email_claim = "email";
  header_name_claim = "name";
  header_preferred_username_claim = "preferred_username";
  header_roles_claim = "roles";
  header_groups_claim = "groups";
  header_admin_role = "admin";
  header_tenant_id_claim = "tenant";
}

abbrev claims : Dict Value
claims = ("sub", text "u1") ∷ ("roles", texts ("admin" ∷ [])) ∷ ("tenant", text "t1") ∷ []

abbrev client : Dict (List String)
client = ("X-USER-ID", "root" ∷ []) ∷ ("Accept", "*/*" ∷ []) ∷ ("cookie", "sid=1" ∷ []) ∷ []

abbrev same_key : String → String
same_key k = k

upstream_headers :
    outgoing_headers same_key client (("X-User-Id", "u1") ∷ [])
    ≡ (("Accept", "*/*" ∷ []) ∷ ("X-User-Id", "u1" ∷ []) ∷ [])
unfolding outgoing_headers eq_fold insert
upstream_headers = refl

withheld : is_withheld "X-USER-ID" ≡ true
unfolding is_reserved eq_fold
withheld = refl

outgoing_headers-withheld_example :
    lookup "X-USER-ID" (outgoing_headers same_key client (("X-User-Id", "u1") ∷ []))
    ≡ lookup "X-USER-ID" (outgoing_headers same_key [] (("X-User-Id", "u1") ∷ []))
outgoing_headers-withheld_example =
    outgoing_headers-withheld same_key client (("X-User-Id", "u1") ∷ []) "X-USER-ID" withheld

-- The base path is in the path that is handed to the reverse proxy for this base.
joined : outgoing_path "/base/" "/api/x" "q=1" ≡ "/base/api/x?q=1"
unfolding outgoing_path trim_slash trim_prefix has_prefix
joined = refl

abbrev principal : Principal
principal = record {
  subject = "u1";
  scopes = [];
  roles = [];
  claims = none;
  expires_at = none;
  access_token = "at";
  tenant_context = none;
}

abbrev obligations : Dict Value
obligations = ("set_header_X_Team", text "blue\r\nX-Is-Admin: true") ∷ []

cleaned : apply_obligations obligations [] ≡ ("X-Team", "blueX-Is-Admin: true") ∷ []
unfolding apply_obligations has_prefix trim_prefix replace strip_line_breaks insert
cleaned = refl

apply_obligations-IsOneLine_example : All IsOneLine (apply_obligations obligations [])
apply_obligations-IsOneLine_example = apply_obligations-IsOneLine obligations [] tt

abbrev engine : Engine
engine = record {
  resolver = λ req. ok (some principal);
  policy = λ input. ok (
      some (record {
        allow = true;
        status_code = 200;
        headers = [];
        reason = "";
        obligations = some obligations;
      }));
  pipeline_plugins = none ∷ [];
  require_auth = true;
  header_builder = none;
  unauthenticated_mode = "";
  login_redirect_url = "";
}

abbrev request : Request
request = record {
  protocol = "https";
  method = "GET";
  path = "/api/x";
  headers = [];
  cookies = [];
  body = "";
  graphql_operation = "";
  graphql_operation_type = "";
  grpc_service = "";
  grpc_method = "";
  remote_addr = "";
}

abbrev same : String → String
same s = s

allowed : (handle same engine request).0.allow ≡ true
unfolding handle plugin_decision authorize evaluate respond response_of
allowed = refl

handle-IsAllowed_example :
    (p : Option Principal) × (d : Decision) × IsAllowed same engine request p d
handle-IsAllowed_example = handle-IsAllowed same engine request allowed

abbrev routes : List (Route Handler)
routes =
    record { config = plain_route "api" [] "/api" "http://up"; engine = default_engine same engine }
    ∷ []

abbrev sent : Dict String
sent = (handle same engine request).0.upstream_headers

served :
    handle_proxy routes "example.com" "/api/x" (ok request)
    ≡ (proxied "http://up" sent "", ("api", "allow") ∷ [])
unfolding handle_proxy handle_route reply_to match_route has_prefix cut handle plugin_decision
    authorize evaluate respond response_of
served = refl

handle_proxy-IsProxied_example :
    (rt : Route Handler) × (resp : Response) × IsProxied routes "example.com" "/api/x" request
      "http://up" sent ""
      (("api", "allow") ∷ [])
      rt
      resp
handle_proxy-IsProxied_example =
    handle_proxy-IsProxied routes "example.com" "/api/x" request "http://up" sent ""
      (("api", "allow") ∷ []) served

abbrev no_digit : Char → Bool
no_digit c = false

no_envelope : String → Option (String × String)
no_envelope s = none

read_names :
    (extract_operation no_digit no_envelope "# users\n mutation AddUser($x: Int) { a }"
      ≡ ("AddUser", "mutation"))
    × (extract_operation no_digit no_envelope "{ users }" ≡ ("", "query"))
    × (extract_operation no_digit no_envelope "query($x: Int) { a }" ≡ ("", "query"))
    × (extract_operation no_digit no_envelope "fragment F on User" ≡ ("", ""))
unfolding extract_operation no_envelope has_prefix trim_space parse_document next_token is_ignored
    read_name is_name all_name_chars is_name_start is_name_char
read_names = (refl, refl, refl, refl)

valid : is_name "GetUser" ≡ true
unfolding is_name all_name_chars is_name_start is_name_char
valid = refl

ended : ends_name " { id }" ≡ true
unfolding ends_name is_name_start is_name_char
ended = refl

parse_document-named_example :
    parse_document no_digit ("query" ++ (" " ++ ("GetUser" ++ " { id }"))) ≡ ("GetUser", "query")
parse_document-named_example =
    parse_document-named no_digit "query" "GetUser" " { id }" refl valid ended
