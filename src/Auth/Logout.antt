-- ===== src/Auth/Logout.antt =====
-- Logout of internal/auth/service/service.go. Tracing spans and log lines are left out.
pub mod Origin
use Prim.Native.String.{◌++◌}
use accessgate.Base.{
  String, ◌==◌, Bool, true, false, not, ◌&&◌, ◌||◌, Option, none, some, any, if◌then◌else◌,
}
use accessgate.Base.Text.{has_prefix, trim_slash}
use accessgate.Base.Result.{Result, ok, err}
use accessgate.Session.{Session}
use accessgate.Auth.Env.{
  emit, logout_completed, M, ◌>>=◌, ◌>>◌, pure, raise, lift, attempt, deferring, get_session,
  delete_session, end_session,
}
use accessgate.Auth.Service.{Service, Connector, Deps, conn}
use accessgate.Auth.Login.{validate_redirect_url}

pub record LogoutRequest : Type 0 where
  pub session_cookie : String
  pub origin : String
  pub referer : String
  pub redirect_to : String
  pub connector : String

pub record LogoutResponse : Type 0 where
  pub redirect_url : String
  pub clear_cookie : Bool

-- The test of one allowed origin, given the base URL with its slash.
unfoldable pub origin_matches : LogoutRequest → String → String → Bool
origin_matches req home o =
    req.origin == o || req.referer == o || req.referer == home || has_prefix req.referer home

-- The check against forged requests.
unfoldable pub origin_admitted : Service → LogoutRequest → Bool
unfolding origin_matches
origin_admitted s req =
    let base = trim_slash s.cfg.app_base_url in
    if req.origin == "" && req.referer == ""
    then true
    else if any (origin_matches req (base ++ "/")) s.cfg.allowed_redirect_origins
    then true
    else req.origin == base || req.origin == ""

abbrev pub decoded_id : Result String → String
decoded_id (ok id) = id
decoded_id (err e) = ""

abbrev pub end_url : Result String → String → String
end_url (ok url) redirect_to = if url == "" then redirect_to else url
end_url (err e) redirect_to = redirect_to

module _ (d : Deps) where
  -- The session id in the request's cookie, "" where there is none.
  unfoldable pub cookie_id : String → String
  cookie_id cookie = if cookie == "" then "" else decoded_id (d.cookie.decode cookie)

  -- The session is deleted, and its ID token is the hint for the provider.
  unfoldable pub drop_found : Connector → String → Result (Option Session) → M String
  drop_found c id (ok (some sess)) = do
    attempt (delete_session d.env c.sessions id)
    pure sess.id_token
  drop_found c id _ = pure ""

  unfoldable pub drop_session : Connector → String → M String
  drop_session c id =
      if id == ""
      then pure ""
      else do got ← attempt (get_session d.env c.sessions id); drop_found c id got

  unfoldable pub logout : Service → LogoutRequest → M LogoutResponse
  logout s req = deferring (emit logout_completed) (do
    c ← lift (conn s req.connector)
    if not (origin_admitted s req) then raise "csrf: origin not allowed" else do
      let redirect_to = validate_redirect_url d s req.redirect_to
      hint ← drop_session c (cookie_id req.session_cookie)
      got ← attempt (end_session d.env c.provider hint redirect_to)
      pure (record { redirect_url = end_url got redirect_to; clear_cookie = true }))
