-- ===== src/AuthHttp/Handlers.antt =====
-- The public handlers of internal/auth/httpserver/server.go.
use Prim.Native.String.{◌++◌}
use accessgate.Base.{String, ◌==◌, not, ◌&&◌, Option, none, some, [], ◌∷◌, if◌then◌else◌, is_some}
use mathlib.Core.List.{◌++◌ as append}
use accessgate.Base.Text.{trim_space}
use accessgate.Base.Result.{Result, ok, err}
use accessgate.Crypto.{Crypto}
use accessgate.Handoff.{TicketJson, Issuer}
use accessgate.Session.{Session}
use accessgate.Auth.Env.{M, ◌>>=◌, pure, attempt}
use accessgate.Auth.Service.{Deps}
use accessgate.Auth.Login.{
  LoginStartRequest, LoginEndRequest, LoginEndResponse, login_start, login_end,
  validate_redirect_url,
}
use accessgate.Auth.Logout.{LogoutRequest, LogoutResponse, logout}
use accessgate.Auth.Refresh.{RefreshRequest, RefreshResponse, refresh}
use accessgate.Auth.Resolve.{Resolved, shown_session, resolve_for_connector}
use accessgate.Auth.Tickets.{redeem_handoff}
use accessgate.AuthHttp.{
  Request, Response, no_body, plain, json_error, shown, user, resolved, Server, replied,
  failed_with, redirected, connector_cookie, clear_cookie, cookie_header,
}

abbrev pub unauthorized : Response
unauthorized = replied 401 (json_error "unauthorized")

-- handleHealthz and handleLivez
abbrev pub healthy : Response
healthy = replied 200 (plain "ok")

module _ (d : Deps) (srv : Server) where
  unfoldable ready_reply : Result (Unit {0}) → Response
  ready_reply (ok done) = healthy
  ready_reply (err e) = replied 503 (plain "unhealthy")

  unfoldable pub handle_readyz : M Response
  unfolding ready_reply
  handle_readyz = elim srv.ping [
    | none ↦ pure healthy
    | some p ↦ do answer ← attempt p.ping; pure (ready_reply answer)
  ]

  unfoldable pub login_reply : Result String → Response
  login_reply (err e) = failed_with e
  login_reply (ok url) = redirected [] url

  unfoldable pub handle_login : Request → M Response
  unfolding login_reply
  handle_login r = do
    let req : LoginStartRequest = record {
      connector = r.connector;
      redirect_to = r.query "redirect_to";
      prompt = trim_space (r.query "prompt");
    }
    started ← attempt (login_start d srv.svc req)
    pure (login_reply started)

  -- The query's values, or the form's where the query has neither a code nor an error.
  unfoldable pub callback_request : Request → LoginEndRequest
  callback_request r =
      let value =
        let use_form = r.query "error" == "" && r.query "code" == "" in
        λ (name : String). if use_form then r.form name else r.query name in
      record {
        connector = r.connector;
        code = value "code";
        state = value "state";
        error = value "error";
        host = r.host;
      }

  abbrev name_for : Request → String
  name_for r = (connector_cookie srv r.connector).0

  unfoldable pub callback_reply : Request → Result LoginEndResponse → Response
  unfolding clear_cookie cookie_header
  callback_reply r (err e) = failed_with e
  callback_reply r (ok resp) =
      redirected
        (append (if resp.clear_cookie then clear_cookie srv (name_for r) else []) (
          if resp.set_cookie_value == ""
          then []
          else cookie_header d.strconv srv r.connector resp.set_cookie_value ∷ []))
        resp.redirect_url

  unfoldable pub handle_callback : Request → M Response
  unfolding callback_request callback_reply
  handle_callback r = do
    ended ← attempt (login_end d srv.svc (callback_request r))
    pure (callback_reply r ended)

  abbrev cookie_of : Request → String → String
  cookie_of r connector = r.cookie (connector_cookie srv connector).0

  unfoldable pub session_reply : Result (Option Session) → Response
  session_reply (err e) = failed_with e
  session_reply (ok sess) = replied 200 (shown sess)

  -- The service's Session never asks for a new cookie.
  unfoldable pub handle_session : Request → M Response
  unfolding session_reply
  handle_session r = do
    got ← attempt (shown_session d srv.svc (cookie_of r r.connector) r.connector)
    pure (session_reply got)

  unfoldable pub me_reply : Result (Option Session) → Response
  me_reply (err e) = failed_with e
  me_reply (ok none) = unauthorized
  me_reply (ok (some sess)) = replied 200 (user sess)

  unfoldable pub handle_me : Request → M Response
  unfolding me_reply
  handle_me r = do
    got ← attempt (shown_session d srv.svc (cookie_of r r.connector) r.connector)
    pure (me_reply got)

  unfoldable pub logout_reply : Request → Result LogoutResponse → Response
  unfolding clear_cookie
  logout_reply r (err e) = failed_with e
  logout_reply r (ok resp) =
      redirected (if resp.clear_cookie then clear_cookie srv (name_for r) else []) resp.redirect_url

  unfoldable pub handle_logout : Request → M Response
  unfolding logout_reply
  handle_logout r = do
    let redirect_to =
        if r.query "redirect_to" == "" then r.form "redirect_to" else r.query "redirect_to"
    let req : LogoutRequest = record {
      connector = r.connector;
      session_cookie = cookie_of r r.connector;
      redirect_to = redirect_to;
      origin = r.header "Origin";
      referer = r.header "Referer";
    }
    left ← attempt (logout d srv.svc req)
    pure (logout_reply r left)

  unfoldable pub refresh_reply : Request → Result RefreshResponse → Response
  unfolding cookie_header
  refresh_reply r (err e) = unauthorized
  refresh_reply r (ok resp) = record (replied 200 no_body) {
    set_cookie =
        if resp.refreshed && not (resp.set_cookie_value == "")
        then cookie_header d.strconv srv r.connector resp.set_cookie_value ∷ []
        else [];
  }

  unfoldable pub handle_refresh : Request → M Response
  unfolding refresh_reply
  handle_refresh r = do
    let req : RefreshRequest = record {
      connector = r.connector;
      session_cookie = cookie_of r r.connector;
    }
    renewed ← attempt (refresh d srv.svc req)
    pure (refresh_reply r renewed)

  unfoldable pub resolve_reply : String → Result Resolved → Response
  unfolding cookie_header
  resolve_reply connector (err e) = unauthorized
  resolve_reply connector (ok res) = record (replied 200 (resolved res)) {
    set_cookie =
        if res.set_cookie_value == ""
        then []
        else cookie_header d.strconv srv connector res.set_cookie_value ∷ [];
  }

  unfoldable pub handle_resolve : Request → M Response
  unfolding resolve_reply
  handle_resolve r = do
    let connector = r.query "connector"
    res ← attempt (resolve_for_connector d srv.svc connector (cookie_of r connector))
    pure (resolve_reply connector res)

module _ (d : Deps) (crypto : Crypto) (json : TicketJson) (srv : Server) where
  unfoldable pub redeem_reply : Request → Result (String × String) → Response
  unfolding cookie_header validate_redirect_url
  redeem_reply r (err e) = redirected [] (srv.cfg.app_base_url ++ srv.cfg.login_error_redirect_path)
  redeem_reply r (ok (value, connector)) =
      redirected (cookie_header d.strconv srv connector value ∷ [])
        (validate_redirect_url d srv.svc (r.query "redirect_to"))

  unfoldable pub handle_handoff_redeem : Option Issuer → Request → M Response
  unfolding redeem_reply
  handle_handoff_redeem handoff r =
      if not (is_some handoff)
      then pure (replied 501 (plain "not available"))
      else if r.query "ticket" == ""
      then pure (replied 400 (plain "missing ticket"))
      else do
        redeemed ←
            attempt (redeem_handoff d crypto json srv.svc handoff r.connector (r.query "ticket"))
        pure (redeem_reply r redeemed)
