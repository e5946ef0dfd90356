-- ===== src/Proxy/Settings/Upstreams.antt =====
-- What Validate of internal/proxy/config/config.go guarantees of the routes and their upstreams.
use accessgate.Base.{
  ◌⊎◌, ◌∙◌, ap, sym, ℕ, suc, String, ◌==◌, ◌≡◌, refl, Bool, true, false, not, ◌&&◌, ◌||◌, inl, inr,
  none, some, List, [], ◌∷◌, any, All, arith, is_empty, if◌then◌else◌, Option-cases, Option,
}
use mathlib.Core.Path.{subst}
use accessgate.Base.Text.{has_prefix, has_prefix-append}
use accessgate.Proxy.Routes.{RouteConfig}
use accessgate.Proxy.Settings.{
  Net, ProxyConfig, blocked_upstream_cidrs, blocked_address, fill_route, fill_routes, addresses_of,
  host_error, parsed_error, validate_upstream_ssrf, route_error, routes_error, top_error,
  grpc_error, upstreams_error, validate_proxy, slashed, default_route, listed_routes, load_proxy,
  normalize_routes, apply_proxy_defaults,
}

-- No two routes have the same id.
abbrev pub AreApart : List RouteConfig → Type 0
AreApart [] = Unit
AreApart (rt ∷ more) = All (λ other. (rt.id == other.id) ≡ false) more × AreApart more

abbrev IsNew : List String → RouteConfig → Type 0
IsNew seen rt = any (λ id. id == rt.id) seen ≡ false

split-IsNew :
    (id : String) (seen : List String) (routes : List RouteConfig)
    → All (IsNew (id ∷ seen)) routes
    → All (λ rt. (id == rt.id) ≡ false) routes × All (IsNew seen) routes
split-IsNew id seen [] h = (tt, tt)
split-IsNew id seen (rt ∷ more) (h, hs) =
    let (a, b) = split-IsNew id seen more hs in ((ground arith, a), (ground arith, b))

right_injective : {A B : Type 0} (x y : B) → Path (A ⊎ B) (inr x) (inr y) → x ≡ y
right_injective x y h = cc

fill_routes-some :
    (c : ProxyConfig) (routes : List RouteConfig)
    → is_empty (fill_routes (if is_empty routes then default_route c ∷ [] else routes)) ≡ false
unfolding fill_routes
fill_routes-some c [] = refl
fill_routes-some c (rt ∷ more) = refl

normalize_routes-some : (c : ProxyConfig) → is_empty (normalize_routes c).routes ≡ false
unfolding normalize_routes
normalize_routes-some c = fill_routes-some c c.routes

module _ {Ip : Type 0} (net : Net Ip) where
  abbrev is_blocked : Option Ip → Bool
  is_blocked none = false
  is_blocked (some ip) = any (λ cidr. net.contains cidr ip) blocked_upstream_cidrs

  -- A text that is an address of no blocked network, or no address.
  abbrev pub IsOutside : String → Type 0
  IsOutside text = is_blocked (net.parse_ip text) ≡ false

  -- An HTTP or HTTPS URL whose host is resolved to addresses of no blocked network.
  pub record IsSafeUpstream (raw : String) : Type 0 where
    pub scheme : String
    pub host : String
    pub ips : List String
    pub parsed : net.parse_url raw ≡ some (scheme, host)
    pub is_http : (not (scheme == "http") && not (scheme == "https")) ≡ false
    pub named : (host == "") ≡ false
    pub resolved : addresses_of net host ≡ some ips
    pub outside : All IsOutside ips

  passed :
      (ip : Ip) (rest : Option Ip)
      → (if is_blocked (some ip) then some ip else rest) ≡ none
      → (is_blocked (some ip) ≡ false) × (rest ≡ none)
  passed ip rest h = ground arith

  blocked_address-none : (ips : List String) → blocked_address net ips ≡ none → All IsOutside ips
  unfolding blocked_address
  blocked_address-none [] h = tt
  blocked_address-none (text ∷ more) h = elim (Option-cases (net.parse_ip text)) [
    | inl bad ↦ (rw bad, blocked_address-none more (rw (bad, blocked_address) at h))
    | inr (ip, found) ↦
        let (fine, others) =
          passed ip (blocked_address net more) (rw (found, blocked_address) at h) in
        (rw (found, fine), blocked_address-none more others)
  ]

  host_error-none :
      (host : String)
      → host_error net host ≡ none
      → (ips : List String) × (addresses_of net host ≡ some ips) × All IsOutside ips
  unfolding host_error
  host_error-none host h = elim (Option-cases (addresses_of net host)) [
    | inl bad ↦ absurd (cc (rw (bad, host_error) at h))
    | inr (ips, found) ↦ elim (Option-cases (blocked_address net ips)) [
      | inr (ip, bad) ↦ absurd (cc (rw (found, host_error, bad) at h))
      | inl fine ↦ (ips, found, blocked_address-none ips fine)
    ]
  ]

  tested :
      (scheme host : String)
      → parsed_error net (some (scheme, host)) ≡ none
      → ((not (scheme == "http") && not (scheme == "https")) ≡ false)
        × ((host == "") ≡ false)
        × (host_error net host ≡ none)
  unfolding parsed_error
  tested scheme host h = ground arith

  pub validate_upstream_ssrf-IsSafe :
      (raw : String) → validate_upstream_ssrf net raw ≡ none → IsSafeUpstream raw
  unfolding validate_upstream_ssrf parsed_error
  validate_upstream_ssrf-IsSafe raw h = elim (Option-cases (net.parse_url raw)) [
    | inl bad ↦ absurd (cc (rw (bad, validate_upstream_ssrf) at h))
    | inr ((scheme, host), found) ↦
        let (http, some_host, clear) =
          tested scheme host (rw (found, validate_upstream_ssrf) at h) in
        let (ips, resolved, outside) = host_error-none host clear in
        record {
          scheme = scheme;
          host = host;
          ips = ips;
          parsed = found;
          is_http = http;
          named = some_host;
          resolved = resolved;
          outside = outside;
        }
  ]

  -- A known mode for a request without a session, and a login URL where it redirects.
  abbrev pub IsRedirected : RouteConfig → Type 0
  IsRedirected rt =
      ((rt.unauthenticated_mode == "api_401")
        || ((rt.unauthenticated_mode == "html_redirect") && not (rt.login_redirect_url == "")))
      ≡ true

  -- A route that the table can serve, whose upstream is safe.
  pub record IsServable (rt : RouteConfig) : Type 0 where
    pub named : (rt.id == "") ≡ false
    pub rooted : has_prefix rt.path_prefix "/" ≡ true
    pub redirected : IsRedirected rt
    pub safe : IsSafeUpstream rt.upstream_url

  record IsTested (seen : List String) (rt : RouteConfig) : Type 0 where
    named : (rt.id == "") ≡ false
    fresh : IsNew seen rt
    placed : (rt.path_prefix == "") ≡ false
    redirected : IsRedirected rt
    clear : validate_upstream_ssrf net rt.upstream_url ≡ none

  route_error-none :
      (seen : List String) (i : ℕ) (rt : RouteConfig)
      → route_error net false seen i rt ≡ none
      → IsTested seen rt
  unfolding route_error
  route_error-none seen i rt h = ground arith

  fill_route-rooted :
      (rt : RouteConfig)
      → ((fill_route rt).path_prefix == "") ≡ false
      → has_prefix (fill_route rt).path_prefix "/" ≡ true
  unfolding fill_route
  fill_route-rooted rt h = ground (arith, has_prefix-append "/" rt.path_prefix)

  served :
      (seen : List String) (rt : RouteConfig)
      → IsTested seen (fill_route rt)
      → IsServable (fill_route rt)
  served seen rt t = record {
    named = t.named;
    rooted = fill_route-rooted rt t.placed;
    redirected = t.redirected;
    safe = validate_upstream_ssrf-IsSafe _ t.clear;
  }

  routes_error-none :
      (seen : List String) (i : ℕ) (routes : List RouteConfig)
      → routes_error net false seen i (fill_routes routes) ≡ none
      → All IsServable (fill_routes routes)
        × All (IsNew seen) (fill_routes routes)
        × AreApart (fill_routes routes)
  unfolding routes_error fill_routes
  routes_error-none seen i [] h = (tt, tt, tt)
  routes_error-none seen i (rt ∷ more) h =
      elim (Option-cases (route_error net false seen i (fill_route rt))) [
        | inr (e, found) ↦ absurd (cc (rw (found, routes_error) at h))
        | inl fine ↦
            let t = route_error-none seen i (fill_route rt) fine in
            let (all, fresh, apart) =
              routes_error-none ((fill_route rt).id ∷ seen) (suc i) more
                (rw (fine, routes_error) at h) in
            let (others, unseen) = split-IsNew (fill_route rt).id seen (fill_routes more) fresh in
            ((served seen rt t, all), (t.fresh, unseen), (others, apart))
      ]

  validate_proxy-none :
      (c : ProxyConfig)
      → (validate_proxy net c).0 ≡ none
      → (validate_proxy net c ≡ (none, slashed c)) × (upstreams_error net (slashed c) ≡ none)
  unfolding validate_proxy
  validate_proxy-none c h = elim (Option-cases (top_error net c)) [
    | inr (e, found) ↦ absurd (cc (rw (found, validate_proxy) at h))
    | inl fine ↦ elim (Option-cases (grpc_error net (slashed c))) [
      | inr (e, found) ↦ absurd (cc (rw (fine, found, validate_proxy) at h))
      | inl clear ↦
          let h' = rw (fine, clear, validate_proxy) at h in
          (rw (fine, clear, validate_proxy, h'), h')
    ]
  ]

  upstreams_error-none :
      (c : ProxyConfig)
      → is_empty c.routes ≡ false
      → c.allow_private_upstreams ≡ false
      → upstreams_error net c ≡ none
      → routes_error net false [] 0 c.routes ≡ none
  unfolding upstreams_error
  upstreams_error-none c e no_private h = rw (e, no_private, upstreams_error) at h

  -- Validate's `c.AllowPrivateUpstreams` off: the routes that Normalize leaves.
  abbrev IsFit : ProxyConfig → Type 0
  IsFit c = All IsServable c.routes × AreApart c.routes × (is_empty c.routes ≡ false)

  fit :
      (c : ProxyConfig)
      → c.allow_private_upstreams ≡ false
      → upstreams_error net (slashed (normalize_routes c)) ≡ none
      → IsFit (slashed (normalize_routes c))
  unfolding normalize_routes
  fit c no_private h =
      let some_routes = normalize_routes-some c in
      let (all, fresh, apart) =
        routes_error-none [] 0 (listed_routes c)
          (upstreams_error-none _ some_routes no_private h) in
      (all, apart, some_routes)

  -- A configuration that Load accepts with private upstreams off has a route at least, the ids
  -- of its routes are all different and not empty, every path prefix begins with a slash, every
  -- route has a known mode for requests without a session and a login URL where that mode
  -- redirects, and every upstream is an HTTP or HTTPS URL with a host that is resolved to
  -- addresses of which none is in a blocked network.
  pub load_proxy-AreServable :
      {E : Type 0} (decoded : E ⊎ ProxyConfig) (c : ProxyConfig)
      → load_proxy net decoded ≡ inr c
      → c.allow_private_upstreams ≡ false
      → All IsServable c.routes × AreApart c.routes × (is_empty c.routes ≡ false)
  unfolding load_proxy normalize_routes
  load_proxy-AreServable (inl e) c h no_private = absurd cc
  load_proxy-AreServable (inr decoded) c h no_private =
      let n = normalize_routes (apply_proxy_defaults decoded) in
      elim (Option-cases (validate_proxy net n).0) [
        | inr (e, found) ↦ absurd (cc (rw (found, load_proxy) at h))
        | inl fine ↦
            let (whole, clear) = validate_proxy-none n fine in
            let left = right_injective (validate_proxy net n).1 c (rw (fine, load_proxy) at h) in
            let same : slashed n ≡ c = sym (ap (λ p. p.1) whole) ∙ left in
            subst IsFit same (
              fit (apply_proxy_defaults decoded)
                (ap (λ x. x.allow_private_upstreams) same ∙ no_private) clear)
      ]
