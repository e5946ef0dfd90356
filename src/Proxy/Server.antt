-- ===== src/Proxy/Server.antt =====
-- The proxy's request handler: handleProxy of internal/proxy/httpserver/server.go and WriteResponse
-- of internal/authz/http.go. An engine is a function here: DefaultEngine is that of Engine.antt.
pub mod Reach
use accessgate.Base.{
  ℕ, String, ◌==◌, Bool, true, false, not, ◌&&◌, Option, none, some, List, [], ◌∷◌, eqb,
  if◌then◌else◌,
}
use accessgate.Base.Dict.{Dict}
use accessgate.Base.Result.{Result, ok, err}
use accessgate.Proxy.Routes.{Route, match_route}
use accessgate.Proxy.Request.{Request}
use accessgate.Proxy.Engine.{Response, Engine, handle}

abbrev pub Handler : Type 0
Handler = Request → Result Response

pub record Written : Type 0 where
  pub status : ℕ
  pub is_json : Bool
  pub body : String

-- What the client gets.
pub data Reply : Type 0 where
  no_route : Reply
  bad_request failed : String → Reply
  redirected : String → Reply
  proxied : String → Dict String → String → Reply
  written : Written → Reply

-- A route's id, and the outcome that is recorded for it.
abbrev pub Outcome : Type 0
Outcome = String × String

unfoldable pub write_response : Response → Written
write_response resp = record {
  status = if eqb resp.status_code 0 then 200 else resp.status_code;
  is_json = not (resp.body == "");
  body = resp.body;
}

-- The handler, once the engine has answered.
unfoldable pub reply_to : Route Handler → Request → Result Response → Reply × List Outcome
unfolding write_response
reply_to rt req (err e) = (failed e, (rt.config.id, "auth_failure") ∷ [])
reply_to rt req (ok resp) =
    if not (resp.redirect_to == "")
    then (redirected resp.redirect_to, (rt.config.id, "auth_failure") ∷ [])
    else if resp.allow && not (rt.config.upstream_url == "")
    then (
      proxied rt.config.upstream_url resp.upstream_headers req.body,
      (rt.config.id, "allow") ∷ [],
    )
    else (written (write_response resp), (rt.config.id, "auth_failure") ∷ [])

-- The handler, once the route is chosen.
unfoldable pub handle_route : Option (Route Handler) → Result Request → Reply × List Outcome
handle_route none req = (no_route, ("", "route_miss") ∷ [])
handle_route (some rt) (err e) = (bad_request e, [])
handle_route (some rt) (ok req) = reply_to rt req (rt.engine req)

-- `req` is what RequestFromHTTP makes of the request.
unfoldable pub handle_proxy :
    List (Route Handler) → String → String → Result Request → Reply × List Outcome
handle_proxy routes host path req = handle_route (match_route host path routes) req

-- DefaultEngine as a route's engine.
abbrev pub default_engine : (String → String) → Engine → Handler
default_engine escape_json e req = ok (handle escape_json e req).0
