-- ===== src/Proxy/Routes.antt =====
-- The choice of a route: matchRoute, hostMatches and pathMatches of
-- internal/proxy/httpserver/server.go. The engine of a route is any type.
pub mod Choice
pub mod Segments
mod Tests
use Prim.Native.String.{◌++◌, len}
use accessgate.Base.{
  ℕ, String, ◌==◌, Bool, true, ◌&&◌, ◌||◌, Option, none, some, List, [], ◌∷◌, any, is_empty, ltb,
  if◌then◌else◌,
}
use accessgate.Base.Text.{has_prefix, cut}

pub record RouteConfig : Type 0 where
  pub id : String
  pub hosts : List String
  pub path_prefix : String
  pub upstream_url : String
  pub require_auth : Bool
  pub unauthenticated_mode : String
  pub login_redirect_url : String
  pub connector_id : String
  pub policy_bundle_path : String

-- A route with the defaults of everything but its place and its upstream.
abbrev pub plain_route : String → List String → String → String → RouteConfig
plain_route id hosts prefix upstream = record {
  id = id;
  hosts = hosts;
  path_prefix = prefix;
  upstream_url = upstream;
  require_auth = true;
  unauthenticated_mode = "api_401";
  login_redirect_url = "";
  connector_id = "";
  policy_bundle_path = "";
}

pub record Route (E : Type 0) : Type 0 where
  pub config : RouteConfig
  pub engine : E

-- The host without its port.
unfoldable pub host_only : String → String
host_only host = elim (cut b':' host) [ none ↦ host | some (before, after) ↦ before ]

unfoldable pub host_matches : List String → String → String → Bool
host_matches hosts host only = is_empty hosts || any (λ h. h == host || h == only) hosts

unfoldable pub path_matches : String → String → Bool
path_matches path prefix =
    if prefix == "" || prefix == "/"
    then true
    else path == prefix || has_prefix path (prefix ++ "/")

module _ {E : Type 0} where
  abbrev pub prefix_length : Route E → ℕ
  prefix_length rt = len rt.config.path_prefix

  -- `n > best`, where `none` stands for the start at -1.
  unfoldable pub is_longer : Route E → Option (Route E) → Bool
  is_longer rt none = true
  is_longer rt (some best) = ltb (prefix_length best) (prefix_length rt)

module _ {E : Type 0} (host path : String) where
  unfoldable pub matches : Route E → Bool
  unfolding host_matches path_matches host_only
  matches rt =
      host_matches rt.config.hosts host (host_only host) && path_matches path rt.config.path_prefix

  -- One round of the loop.
  unfoldable pub pick : Option (Route E) → Route E → Option (Route E)
  unfolding matches is_longer
  pick best rt = if matches rt && is_longer rt best then some rt else best

  unfoldable pub match_from : Option (Route E) → List (Route E) → Option (Route E)
  unfolding pick
  match_from best [] = best
  match_from best (rt ∷ more) = match_from (pick best rt) more

  unfoldable pub match_route : List (Route E) → Option (Route E)
  unfolding match_from
  match_route routes = match_from none routes
