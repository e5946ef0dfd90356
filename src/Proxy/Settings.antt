-- ===== src/Proxy/Settings.antt =====
-- The proxy's configuration: internal/proxy/config/config.go. net/url's Parse and Hostname, the
-- resolver, net.ParseIP, net.SplitHostPort, IPNet.Contains and time.ParseDuration are parameters.
mod Tests
pub mod Upstreams
use Prim.Native.String.{◌++◌}
use accessgate.Base.{
  ℕ, suc, ◌*◌, String, ◌==◌, Bool, true, false, not, ◌&&◌, ◌||◌, Option, none, some, List, [], ◌∷◌,
  any, is_empty, if◌then◌else◌, ◌⊎◌, inl, inr,
}
use accessgate.Base.Text.{has_prefix}
use accessgate.Base.Int.{ℤ, pos, ltb_ℤ}
use accessgate.Handoff.{second}
use accessgate.Proxy.Routes.{RouteConfig}
use accessgate.Proxy.Headers.{HeaderConfig}

-- The fields that defaults, validation and the route table read.
pub record ProxyConfig : Type 0 where
  pub upstream_url : String
  pub proxy_path_prefix : String
  pub require_auth : Bool
  pub auth_url : String
  pub cookie_name : String
  pub http_port : String
  pub grpc_upstream_addr : String
  pub policy_engine : String
  pub policy_bundle_path : String
  pub policy_reload_enabled : Bool
  pub policy_reload_interval : String
  pub allow_private_upstreams : Bool
  pub routes : List RouteConfig
  pub headers : HeaderConfig

-- A parsed URL's scheme and Hostname(); a host's addresses, `none` when it is not resolved; the
-- address that a text denotes; and whether a network contains an address.
pub record Net (Ip : Type 0) : Type 0 where
  pub parse_url : String → Option (String × String)
  pub lookup_host : String → Option (List String)
  pub parse_ip : String → Option Ip
  pub ip_string : Ip → String
  pub contains : String → Ip → Bool
  pub split_host_port : String → Option (String × String)
  pub parse_duration : String → Option ℤ

abbrev pub blocked_upstream_cidrs : List String
blocked_upstream_cidrs =
    "127.0.0.0/8" ∷ "::1/128" ∷ "10.0.0.0/8" ∷ "172.16.0.0/12" ∷ "192.168.0.0/16" ∷ "169.254.0.0/16"
    ∷ "fe80::/10" ∷ "fc00::/7" ∷ "0.0.0.0/8" ∷ []

pub data UpstreamError : Type 0 where
  invalid_url no_host no_port : UpstreamError
  scheme_not_allowed not_resolved : String → UpstreamError
  blocked : String → String → UpstreamError

pub data ProxyConfigError : Type 0 where
  missing : String → ProxyConfigError
  invalid_duration below_minimum reload_without_bundle : ProxyConfigError
  upstream : UpstreamError → ProxyConfigError
  missing_id : ℕ → ProxyConfigError
  duplicate_id missing_path_prefix missing_upstream_url : String → ProxyConfigError
  invalid_mode missing_login_redirect : String → ProxyConfigError
  route_upstream : String → UpstreamError → ProxyConfigError

abbrev or_fallback : String → String → String
or_fallback v d = if v == "" then d else v

-- HeaderTenantIDClaim has no default.
unfoldable pub header_defaults : HeaderConfig → HeaderConfig
header_defaults h = record h {
  header_user_id_claim = or_fallback h.header_user_id_claim "sub";
  header_email_claim = or_fallback h.header_email_claim "email";
  header_name_claim = or_fallback h.header_name_claim "name";
  header_preferred_username_claim =
      or_fallback h.header_preferred_username_claim "preferred_username";
  header_roles_claim = or_fallback h.header_roles_claim "realm_access.roles";
  header_groups_claim = or_fallback h.header_groups_claim "groups";
  header_admin_role = or_fallback h.header_admin_role "admin";
}

unfoldable pub apply_proxy_defaults : ProxyConfig → ProxyConfig
unfolding header_defaults
apply_proxy_defaults c = record c {
  proxy_path_prefix = or_fallback c.proxy_path_prefix "/graphql";
  cookie_name = or_fallback c.cookie_name "__Host-ess_session";
  http_port = or_fallback c.http_port "8081";
  policy_engine = or_fallback c.policy_engine "wasm";
  policy_reload_interval = or_fallback c.policy_reload_interval "10s";
  headers = header_defaults c.headers;
}

unfoldable pub default_route : ProxyConfig → RouteConfig
default_route c = record {
  id = "default";
  hosts = [];
  path_prefix = c.proxy_path_prefix;
  upstream_url = c.upstream_url;
  require_auth = c.require_auth;
  unauthenticated_mode = "api_401";
  login_redirect_url = "";
  connector_id = "";
  policy_bundle_path = "";
}

unfoldable pub fill_route : RouteConfig → RouteConfig
fill_route rt = record rt {
  path_prefix =
      if not (rt.path_prefix == "") && not (has_prefix rt.path_prefix "/")
      then "/" ++ rt.path_prefix
      else rt.path_prefix;
  unauthenticated_mode = or_fallback rt.unauthenticated_mode "api_401";
}

unfoldable pub fill_routes : List RouteConfig → List RouteConfig
unfolding fill_route
fill_routes [] = []
fill_routes (rt ∷ more) = fill_route rt ∷ fill_routes more

abbrev pub listed_routes : ProxyConfig → List RouteConfig
listed_routes c = if is_empty c.routes then default_route c ∷ [] else c.routes

unfoldable pub normalize_routes : ProxyConfig → ProxyConfig
unfolding fill_routes default_route
normalize_routes c = record c { routes = fill_routes (listed_routes c) }

abbrev pub slashed : ProxyConfig → ProxyConfig
slashed c = record c {
  proxy_path_prefix =
      if not (has_prefix c.proxy_path_prefix "/")
      then "/" ++ c.proxy_path_prefix
      else c.proxy_path_prefix;
}

module _ {Ip : Type 0} (net : Net Ip) where
  -- The first address that is in a blocked network; a text that is no address is passed over.
  unfoldable pub blocked_address : List String → Option Ip
  blocked_address [] = none
  blocked_address (text ∷ more) =
      let rest = blocked_address more in
      elim (net.parse_ip text) [
        | none ↦ rest
        | some ip ↦
            if any (λ cidr. net.contains cidr ip) blocked_upstream_cidrs then some ip else rest
      ]

  -- A host that the resolver does not know may still be an address.
  unfoldable pub addresses_of : String → Option (List String)
  addresses_of host = elim (net.lookup_host host) [
    | some ips ↦ some ips
    | none ↦ (elim (net.parse_ip host) [ some ip ↦ some (net.ip_string ip ∷ []) | none ↦ none ])
  ]

  unfoldable pub host_error : String → Option UpstreamError
  unfolding blocked_address addresses_of
  host_error host = elim (addresses_of host) [
    | none ↦ some (not_resolved host)
    | some ips ↦ (elim (blocked_address ips) [
      | some ip ↦ some (blocked host (net.ip_string ip))
      | none ↦ none
    ])
  ]

  unfoldable pub parsed_error : Option (String × String) → Option UpstreamError
  unfolding host_error
  parsed_error none = some invalid_url
  parsed_error (some (scheme, host)) =
      if not (scheme == "http") && not (scheme == "https")
      then some (scheme_not_allowed scheme)
      else if host == ""
      then some no_host
      else host_error host

  unfoldable pub validate_upstream_ssrf : String → Option UpstreamError
  unfolding parsed_error
  validate_upstream_ssrf raw = parsed_error (net.parse_url raw)

  unfoldable pub validate_grpc_upstream_ssrf : String → Option UpstreamError
  unfolding host_error
  validate_grpc_upstream_ssrf addr = elim (net.split_host_port addr) [
    | none ↦ some invalid_url
    | some (host, port) ↦
        if host == "" then some no_host else if port == "" then some no_port else host_error host
  ]

  -- The checks of one route, the `i`th, behind those with the ids `seen`.
  unfoldable pub route_error : Bool → List String → ℕ → RouteConfig → Option ProxyConfigError
  unfolding validate_upstream_ssrf
  route_error private seen i rt =
      if rt.id == ""
      then some (missing_id i)
      else if any (λ id. id == rt.id) seen
      then some (duplicate_id rt.id)
      else if rt.path_prefix == ""
      then some (missing_path_prefix rt.id)
      else if rt.upstream_url == ""
      then some (missing_upstream_url rt.id)
      else if not (rt.unauthenticated_mode == "api_401")
          && not (rt.unauthenticated_mode == "html_redirect")
      then some (invalid_mode rt.id)
      else if rt.unauthenticated_mode == "html_redirect" && (rt.login_redirect_url == "")
      then some (missing_login_redirect rt.id)
      else if private
      then none
      else elim (validate_upstream_ssrf rt.upstream_url) [
        | none ↦ none
        | some e ↦ some (route_upstream rt.id e)
      ]

  unfoldable pub routes_error : Bool → List String → ℕ → List RouteConfig → Option ProxyConfigError
  unfolding route_error
  routes_error private seen i [] = none
  routes_error private seen i (rt ∷ more) =
      let rest = routes_error private (rt.id ∷ seen) (suc i) more in
      elim (route_error private seen i rt) [ none ↦ rest | some e ↦ some e ]

  unfoldable pub interval_error : String → Option ProxyConfigError
  interval_error interval = if interval == "" then none else elim (net.parse_duration interval) [
    | none ↦ some invalid_duration
    | some d ↦ if ltb_ℤ d (pos second) then some below_minimum else none
  ]

  unfoldable pub policy_reload_interval_duration : ProxyConfig → ℤ
  policy_reload_interval_duration c =
      if c.policy_reload_interval == ""
      then pos (10 * second)
      else elim (net.parse_duration c.policy_reload_interval) [
        | none ↦ pos (10 * second)
        | some d ↦ if ltb_ℤ d (pos second) then pos (10 * second) else d
      ]

  unfoldable pub top_error : ProxyConfig → Option ProxyConfigError
  unfolding interval_error
  top_error c =
      if c.auth_url == ""
      then some (missing "AUTH_URL")
      else if not (c.policy_engine == "")
          && not (c.policy_engine == "wasm")
          && not (c.policy_engine == "rego")
      then some (missing "POLICY_ENGINE (must be \"wasm\" or \"rego\")")
      else elim (interval_error c.policy_reload_interval) [
        | some e ↦ some e
        | none ↦
            if c.policy_reload_enabled && (c.policy_bundle_path == "")
            then some reload_without_bundle
            else none
      ]

  unfoldable pub grpc_error : ProxyConfig → Option ProxyConfigError
  unfolding validate_grpc_upstream_ssrf
  grpc_error c =
      if c.grpc_upstream_addr == "" || c.allow_private_upstreams
      then none
      else elim (validate_grpc_upstream_ssrf c.grpc_upstream_addr) [
        | none ↦ none
        | some e ↦ some (upstream e)
      ]

  unfoldable pub upstreams_error : ProxyConfig → Option ProxyConfigError
  unfolding routes_error validate_upstream_ssrf
  upstreams_error c =
      if not (is_empty c.routes)
      then routes_error c.allow_private_upstreams [] 0 c.routes
      else if c.upstream_url == ""
      then some (missing "UPSTREAM_URL")
      else if c.allow_private_upstreams
      then none
      else elim (validate_upstream_ssrf c.upstream_url) [ none ↦ none | some e ↦ some (upstream e) ]

  -- Validate: its error, and the configuration it leaves, whose path prefix begins with a slash
  -- once the checks at the top are passed.
  unfoldable pub validate_proxy : ProxyConfig → Option ProxyConfigError × ProxyConfig
  unfolding top_error grpc_error upstreams_error
  validate_proxy c = elim (top_error c) [
    | some e ↦ (some e, c)
    | none ↦ (elim (grpc_error (slashed c)) [
      | some e ↦ (some e, slashed c)
      | none ↦ (upstreams_error (slashed c), slashed c)
    ])
  ]

  -- What the loader decodes, or its error, is given; a configuration that is not accepted is an
  -- error with the reason.
  unfoldable pub load_proxy : {E : Type 0} → E ⊎ ProxyConfig → (E ⊎ ProxyConfigError) ⊎ ProxyConfig
  unfolding apply_proxy_defaults normalize_routes validate_proxy
  load_proxy (inl e) = inl (inl e)
  load_proxy (inr decoded) =
      let (problem, c) = validate_proxy (normalize_routes (apply_proxy_defaults decoded)) in
      elim problem [ some e ↦ inl (inr e) | none ↦ inr c ]
