-- ===== src/Proxy/Server/Reach.antt =====
-- Which requests reach an upstream through internal/proxy/httpserver/server.go.
use accessgate.Base.{String, eq_iff, ◌≡◌, refl, true, Option, none, some, List, [], ◌∷◌, arith}
use accessgate.Base.Dict.{Dict}
use accessgate.Base.Result.{Result, ok, err}
use accessgate.Proxy.Routes.{Route, match_route}
use accessgate.Proxy.Request.{Request}
use accessgate.Proxy.Engine.{Response}
use accessgate.Proxy.Server.{Handler, proxied, Outcome, reply_to, handle_route, handle_proxy}

module _ (routes : List (Route Handler)) (host path : String) (req : Request) where
  -- The request went to the upstream of the route that takes it, which allowed it.
  pub record IsProxied (url : String) (headers : Dict String) (body : String)
      (outcomes : List Outcome) (rt : Route Handler) (resp : Response) : Type 0 where
    pub chosen : match_route host path routes ≡ some rt
    pub answered : rt.engine req ≡ ok resp
    pub allowed : resp.allow ≡ true
    pub direct : resp.redirect_to ≡ ""
    pub target : rt.config.upstream_url ≡ url
    pub sent : (resp.upstream_headers ≡ headers) × (req.body ≡ body)
    pub recorded : outcomes ≡ (rt.config.id, "allow") ∷ []

  reply_to-IsProxied :
      (url : String) (headers : Dict String) (body : String) (outcomes : List Outcome)
      (rt : Route Handler) (resp : Response)
      → match_route host path routes ≡ some rt
      → rt.engine req ≡ ok resp
      → reply_to rt req (ok resp) ≡ (proxied url headers body, outcomes)
      → IsProxied url headers body outcomes rt resp
  unfolding reply_to
  reply_to-IsProxied url headers body outcomes rt resp m a h =
      ground (arith, eq_iff resp.redirect_to "")

  route-IsProxied :
      (url : String) (headers : Dict String) (body : String) (outcomes : List Outcome)
      (found : Option (Route Handler))
      → match_route host path routes ≡ found
      → handle_route found (ok req) ≡ (proxied url headers body, outcomes)
      → (rt : Route Handler) × (resp : Response) × IsProxied url headers body outcomes rt resp
  unfolding handle_route
  route-IsProxied url headers body outcomes none m h = absurd (cc)
  route-IsProxied url headers body outcomes (some rt) m h = answered-IsProxied (rt.engine req) refl
    where
      answered-IsProxied :
          (r : Result Response)
          → rt.engine req ≡ r
          → (rt : Route Handler) × (resp : Response) × IsProxied url headers body outcomes rt resp
      answered-IsProxied (ok resp) a = (
        rt,
        resp,
        reply_to-IsProxied url headers body outcomes rt resp m a (rw (a, handle_route) at h),
      )
      answered-IsProxied (err e) a = absurd (unfold reply_to in cc (rw (a, handle_route) at h))

  -- A request goes to an upstream only if the route that takes it has an engine that allowed it
  -- without a redirect. It goes to this route's upstream, with the headers of the engine's answer
  -- and the body that the engine saw, and the one outcome recorded is that route's "allow".
  pub handle_proxy-IsProxied :
      (url : String) (headers : Dict String) (body : String) (outcomes : List Outcome)
      → handle_proxy routes host path (ok req) ≡ (proxied url headers body, outcomes)
      → (rt : Route Handler) × (resp : Response) × IsProxied url headers body outcomes rt resp
  unfolding handle_proxy
  handle_proxy-IsProxied url headers body outcomes h =
      route-IsProxied url headers body outcomes _ refl h
