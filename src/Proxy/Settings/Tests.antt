-- ===== src/Proxy/Settings/Tests.antt =====
-- Runs of the proxy's configuration loading (internal/proxy/config), and the theorem at one.
use accessgate.Base.{
  String, ◌==◌, ◌≡◌, refl, true, false, ◌&&◌, inl, inr, ◌*◌, none, some, List, [], ◌∷◌, All,
  is_empty, if◌then◌else◌,
}
use accessgate.Base.Text.{has_prefix}
use accessgate.Base.Int.{pos}
use accessgate.Handoff.{second}
use accessgate.Proxy.Routes.{RouteConfig, plain_route}
use accessgate.Proxy.Headers.{HeaderConfig}
use accessgate.Proxy.Settings.{
  Net, ProxyConfig, route_upstream, duplicate_id, blocked, header_defaults, apply_proxy_defaults,
  fill_route, fill_routes, normalize_routes, blocked_address, addresses_of, host_error,
  parsed_error, validate_upstream_ssrf, route_error, routes_error, interval_error, top_error,
  grpc_error, upstreams_error, validate_proxy, load_proxy,
}
use accessgate.Proxy.Settings.Upstreams.{IsServable, AreApart, load_proxy-AreServable}

abbrev net : Net String
net = record {
  parse_url = λ raw.
      if raw == "https://api"
      then some ("https", "api")
      else if raw == "http://inside"
      then some ("http", "inside")
      else none;
  lookup_host = λ host.
      if host == "api"
      then some ("203.0.113.5" ∷ [])
      else if host == "inside"
      then some ("203.0.113.6" ∷ "10.1.2.3" ∷ [])
      else none;
  parse_ip = λ text. some text;
  ip_string = λ ip. ip;
  contains = λ cidr ip. cidr == "10.0.0.0/8" && has_prefix ip "10.";
  split_host_port = λ addr. none;
  parse_duration = λ text. if text == "10s" then some (pos (10 * second)) else none;
}

abbrev no_headers : HeaderConfig
no_headers = record {
  header_user_id_claim = "";
  header_email_claim = "";
  header_name_claim = "";
  header_preferred_username_claim = "";
  header_roles_claim = "";
  header_groups_claim = "";
  header_admin_role = "";
  header_tenant_id_claim = "";
}

abbrev settings : String → List RouteConfig → ProxyConfig
settings upstream_url routes = record {
  upstream_url = upstream_url;
  proxy_path_prefix = "";
  require_auth = true;
  auth_url = "http://auth";
  cookie_name = "";
  http_port = "";
  grpc_upstream_addr = "";
  policy_engine = "";
  policy_bundle_path = "";
  policy_reload_enabled = false;
  policy_reload_interval = "";
  allow_private_upstreams = false;
  routes = routes;
  headers = no_headers;
}

abbrev accepted : ProxyConfig
accepted =
    (validate_proxy net (
      normalize_routes
        (apply_proxy_defaults (settings "" (plain_route "a" [] "api" "https://api" ∷ []))))).1

load_proxy-AreServable_example :
    All (IsServable net) accepted.routes
    × AreApart accepted.routes
    × (is_empty accepted.routes ≡ false)
unfolding load_proxy validate_proxy top_error interval_error grpc_error upstreams_error routes_error
    route_error validate_upstream_ssrf parsed_error host_error addresses_of blocked_address
    apply_proxy_defaults header_defaults normalize_routes fill_routes fill_route has_prefix
load_proxy-AreServable_example =
    load_proxy-AreServable net {E = Unit}
      (inr (settings "" (plain_route "a" [] "api" "https://api" ∷ []))) accepted refl refl

inside_refused :
    load_proxy net {E = Unit} (inr (settings "" (plain_route "a" [] "/api" "http://inside" ∷ [])))
    ≡ inl (inr (route_upstream "a" (blocked "inside" "10.1.2.3")))
unfolding load_proxy validate_proxy top_error interval_error grpc_error upstreams_error routes_error
    route_error validate_upstream_ssrf parsed_error host_error addresses_of blocked_address
    apply_proxy_defaults header_defaults normalize_routes fill_routes fill_route has_prefix
inside_refused = refl

duplicate_refused :
    load_proxy net {E = Unit} (
      inr (
        settings ""
          (plain_route "a" [] "/api" "https://api" ∷ plain_route "a" [] "/" "https://api" ∷ [])))
    ≡ inl (inr (duplicate_id "a"))
unfolding load_proxy validate_proxy top_error interval_error grpc_error upstreams_error routes_error
    route_error validate_upstream_ssrf parsed_error host_error addresses_of blocked_address
    apply_proxy_defaults header_defaults normalize_routes fill_routes fill_route has_prefix
duplicate_refused = refl
