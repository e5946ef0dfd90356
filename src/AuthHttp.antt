-- ===== src/AuthHttp.antt =====
-- The HTTP server of the auth service: the parts that its handlers share, of
-- internal/auth/httpserver/server.go, and StatusFor of internal/auth/errormap.
pub mod Handlers
pub mod Admin
pub mod Safe
pub mod Tests
use Prim.Native.String
use Prim.Native.String.{◌++◌}
use accessgate.Base.{
  ℕ, String, ◌==◌, Bool, true, false, not, ◌&&◌, ◌||◌, Option, none, some, List, [], ◌∷◌, any,
  if◌then◌else◌,
}
use accessgate.Base.Int.{ℤ, pos, leb_ℤ}
use accessgate.Base.Text.{has_prefix}
use accessgate.Base.Dict.{Dict, insert}
use accessgate.Session.{Session, TenantContext}
use accessgate.Auth.Env.{M}
use accessgate.Auth.Service.{
  Service, Config, ConnectorConfig, SameSite, unset, lax, strict, none_mode, Strconv,
}
use accessgate.Auth.Settings.{connector_by_id}
use accessgate.Auth.Resolve.{Resolved}

-- The bodies of the admin endpoints, decoded from JSON.
pub record Lookup : Type 0 where
  pub subject : String
  pub email : String

pub record IssueBody : Type 0 where
  pub connector : String
  pub lookup : Lookup
  pub redirect_to : String

pub record PatchBody : Type 0 where
  pub session_id : String
  pub tenant_context : Option TenantContext

pub record DelegatedBody : Type 0 where
  pub lookup : Lookup
  pub token_use : String

-- What the handlers read of an *http.Request: the path's connector, the values of the query, the
-- form, the headers and the cookies ("" where one is missing), and the decoded body, `none` where
-- the JSON does not decode.
pub record Request : Type 0 where
  pub method : String
  pub connector : String
  pub host : String
  pub query : String → String
  pub form : String → String
  pub header : String → String
  pub cookie : String → String
  pub issue_body : Option IssueBody
  pub patch_body : Option PatchBody
  pub lookup_body : Option Lookup
  pub delegated_body : Option DelegatedBody

pub data Body : Type 0 where
  no_body : Body
  plain json_error : String → Body
  shown : Option Session → Body
  user : Session → Body
  resolved : Resolved → Body
  ticket : String → String → Body
  revoked : ℕ → Body
  delegated : Session → Body
  summary : Config → String → Body

-- A response: the Set-Cookie headers in the order in which they are added, and the URL that is
-- given to http.Redirect.
pub record Response : Type 0 where
  pub status : ℕ
  pub set_cookie : List String
  pub location : Option String
  pub body : Body

-- The pinger and what it offers beside Ping: the store's scans (session_find is the environment's).
pub record Pinger : Type 0 where
  pub ping : M (Unit {0})
  pub find : Option (String → String → M (Option Session))
  pub delete : Option (String → String → M ℕ)

pub record Server : Type 0 where
  pub svc : Service
  pub cfg : Config
  pub cookie : String
  pub ping : Option Pinger

-- New
unfoldable pub new_server : Service → Config → Option Pinger → Server
new_server svc cfg ping = record { svc = svc; cfg = cfg; cookie = cfg.cookie_name; ping = ping }

-- strings.Contains
unfoldable pub contains : String → String → Bool
contains String.[] sub = has_prefix "" sub
contains (String.◌∷◌ c s) sub = let rest = contains s sub in has_prefix (String.◌∷◌ c s) sub || rest

-- StatusFor of an error's text. No error of the service wraps one of the package's own errors, so
-- the tests by errors.Is do not arise.
unfoldable pub status_for : String → ℕ
unfolding contains
status_for s =
    if contains s "missing" || contains s "required"
    then 400
    else if contains s "invalid" || contains s "redirect"
    then 400
    else if contains s "not found" || contains s "NotFound"
    then 404
    else if contains s "unauthorized" || contains s "Unauthorized"
    then 401
    else if contains s "forbidden"
    then 403
    else 500

-- http.Error, http.Redirect with 302, and a response without cookies.
abbrev pub replied : ℕ → Body → Response
replied status body = record { status = status; set_cookie = []; location = none; body = body }

abbrev pub failed_with : String → Response
failed_with e = replied (status_for e) (plain e)

abbrev pub redirected : List String → String → Response
redirected cookies url = record {
  status = 302;
  set_cookie = cookies;
  location = some url;
  body = no_body;
}

abbrev is_zero : ℤ → Bool
is_zero v = leb_ℤ v (pos 0) && leb_ℤ (pos 0) v

abbrev own_cookie : Option ConnectorConfig → String → String
own_cookie none name = name
own_cookie (some cc) name = if cc.cookie_name == "" then name else cc.cookie_name

abbrev own_age : Option ConnectorConfig → ℤ → ℤ
own_age none age = age
own_age (some cc) age = if is_zero cc.session_ttl_seconds then age else cc.session_ttl_seconds

unfoldable pub connector_cookie : Server → String → String × ℤ
connector_cookie s connector =
    let cc = connector_by_id s.cfg.connectors connector in
    (own_cookie cc s.cookie, own_age cc s.cfg.session_ttl_seconds)

pub record CookieOpts : Type 0 where
  pub path : String
  pub domain : String
  pub max_age : ℤ
  pub secure : Bool
  pub http_only : Bool
  pub same_site : String

abbrev same_site_text : SameSite → String
same_site_text strict = "Strict"
same_site_text none_mode = "None"
same_site_text _ = "Lax"

unfoldable pub cookie_opts_for_name : Server → String → ℤ → CookieOpts
cookie_opts_for_name s name max_age =
    let host_only = has_prefix name "__Host-" in
    record {
      path = "/";
      domain = if host_only then "" else s.cfg.cookie_domain;
      max_age = max_age;
      secure = if host_only then true else s.cfg.cookie_secure;
      http_only = true;
      same_site = same_site_text s.cfg.cookie_same_site;
    }

-- clearCookie
unfoldable pub clear_cookie : Server → String → List String
clear_cookie s name =
    let bare = name ++ "=; Path=/; Max-Age=0; HttpOnly" in
    if s.cfg.cookie_secure || has_prefix name "__Host-"
    then bare ∷ (name ++ "=; Path=/; Max-Age=0; HttpOnly; Secure") ∷ []
    else bare ∷ []

module _ (strconv : Strconv) where
  -- writeSessionCookie
  unfoldable pub session_cookie : String → String → CookieOpts → String
  session_cookie name value o =
      name
      ++ ("="
          ++ (value
              ++ ("; Path="
                  ++ (o.path
                      ++ ("; Max-Age="
                          ++ (strconv.format_int o.max_age
                              ++ ("; HttpOnly"
                                  ++ ((if o.domain == "" then "" else "; Domain=" ++ o.domain)
                                      ++ ((if o.secure then "; Secure" else "")
                                          ++ ("; SameSite=" ++ o.same_site))))))))))

  -- The Set-Cookie header of a connector's session cookie.
  unfoldable pub cookie_header : Server → String → String → String
  unfolding connector_cookie cookie_opts_for_name session_cookie
  cookie_header s connector value =
      let (name, age) = connector_cookie s connector in
      session_cookie name value (cookie_opts_for_name s name age)

-- securityHeaders, on the response's headers before the handler runs.
unfoldable pub security_headers : Dict String → Dict String
security_headers h = insert "X-Frame-Options" "DENY" (
    insert "X-Content-Type-Options" "nosniff"
      (insert "Content-Security-Policy" "default-src 'none'" h))

-- cors: the headers, and whether the request goes on to the handler.
unfoldable pub cors : List String → Request → Dict String → Dict String × Bool
cors origins r h =
    let origin = r.header "Origin" in
    let named =
      if any (λ o. o == origin) origins then insert "Access-Control-Allow-Origin" origin h else h in
    (
      insert "Access-Control-Allow-Headers" "Content-Type" (
          insert "Access-Control-Allow-Methods" "GET, POST, OPTIONS"
            (insert "Access-Control-Allow-Credentials" "true" named)),
      not (r.method == "OPTIONS"),
    )
