-- ===== src/Auth/Refresh.antt =====
-- Refreshing a session's tokens: ensureFresh, Refresh and what they share, in
-- internal/auth/service/service.go. Tracing spans and log lines are left out.
pub mod Lock
pub mod Fresh
use Prim.Native.String.{◌++◌}
use accessgate.Base.{String, ◌==◌, Bool, true, false, not, Option, none, some, if◌then◌else◌}
use accessgate.Base.Int.{ℤ, pos, leb_ℤ, wrap64, ◌+ℤ◌}
use accessgate.Base.Result.{Result, ok, err}
use accessgate.Session.{Session, needs_refresh}
use accessgate.Token.{Principal, validate_claims}
use accessgate.Auth.Env.{
  emit, refresh_completed, M, ◌>>=◌, ◌>>◌, pure, raise, lift, attempt, finally, wrap_error,
  deferring, ProviderTokens, get_session, set_session, obtain_lock, release_lock, refresh_tokens,
  fetch_jwks, parse_token, read_clock,
}
use accessgate.Auth.Service.{Service, Connector, Deps, conn, audience_of, apply_refreshed_claims}

abbrev pub found_session : Result (Option Session) → M Session
found_session (ok (some sess)) = pure sess
found_session _ = raise "session not found"

module _ (d : Deps) where
  -- sess, err := c.sessions.Get(...); if err != nil || sess == nil { ... }
  unfoldable pub require_session : Connector → String → M Session
  require_session c id = do got ← attempt (get_session d.env c.sessions id); found_session got

  -- token.ValidateIDToken
  unfoldable pub validate_id_token : String → String → String → String → M Principal
  validate_id_token raw issuer audience nonce = do
    jwks ← wrap_error "token: get jwks: " (fetch_jwks d.env issuer)
    claims ← wrap_error "token: parse: " (parse_token d.env jwks raw issuer)
    lift (validate_claims d.numbers claims audience nonce)

  -- When the tokens expire; without an expires_in, an hour from now.
  unfoldable pub expires_from : ℤ → M ℤ
  expires_from expires_in = do
    now ← read_clock d.env
    if leb_ℤ expires_in (pos 0)
        then (do later ← read_clock d.env; pure (wrap64 (later +ℤ pos 3600)))
        else pure (wrap64 (now +ℤ expires_in))

  unfoldable pub refresh_due : Service → Session → M Bool
  refresh_due s sess = if sess.refresh_token == "" then pure false else do
    now ← read_clock d.env
    pure (needs_refresh sess now s.cfg.session_refresh_early_seconds)

  -- The claims of a refreshed ID token, if it is valid.
  unfoldable pub adopt_claims : Connector → Session → Result Principal → Session
  adopt_claims c sess (err e) = sess
  adopt_claims c sess (ok p) = elim p.claims [
    | none ↦ sess
    | some claims ↦ apply_refreshed_claims d.strconv c sess claims
  ]

  -- The session with the new tokens.
  unfoldable pub rotate : Connector → Session → ProviderTokens → M Session
  rotate c sess tokens = do
    expires_at ← expires_from tokens.expires_in
    let renewed = record sess {
      access_token = tokens.access_token;
      expires_at = expires_at;
      refresh_token =
          if tokens.refresh_token == "" then sess.refresh_token else tokens.refresh_token;
    }
    if tokens.id_token == "" then pure renewed else do
      -- no nonce is expected on a refresh
      checked ← attempt (validate_id_token tokens.id_token c.cfg.oidc_issuer (audience_of c) "")
      pure (adopt_claims c (record renewed { id_token = tokens.id_token }) checked)

  -- From the provider's call to the stored session.
  unfoldable pub renew : Connector → String → Session → M Session
  renew c id sess = do
    tokens ← wrap_error "refresh failed: " (refresh_tokens d.env c.provider sess.refresh_token)
    renewed ← rotate c sess tokens
    set_session d.env c.sessions id renewed c.cfg.session_ttl_seconds
    pure renewed

  -- ensureFresh, while it holds the lock.
  unfoldable pub renew_if_due : Service → Connector → String → M (Session × Bool)
  renew_if_due s c id = do
    sess ← require_session c id
    due ← refresh_due s sess
    if not due then pure (sess, false) else (do renewed ← renew c id sess; pure (renewed, true))

  -- ensureFresh, once the lock has answered.
  unfoldable pub with_lock : Service → Connector → String → Bool → M (Session × Bool)
  with_lock s c id true = deferring (release_lock d.env c.refresh_lock id) (renew_if_due s c id)
  with_lock s c id false = do sess ← require_session c id; pure (sess, false)

  -- ensureFresh, from its first look at the session on.
  unfoldable pub lock_if_due : Service → Connector → String → Session → Bool → M (Session × Bool)
  lock_if_due s c id sess false = pure (sess, false)
  lock_if_due s c id sess true = do
    got ←
        wrap_error "refresh lock obtain failed: "
          (obtain_lock d.env c.refresh_lock id c.cfg.session_refresh_lock_ttl_seconds)
    with_lock s c id got

  unfoldable pub ensure_fresh : Service → Connector → String → M (Session × Bool)
  ensure_fresh s c id =
      if id == ""
      then raise "session id required"
      else do sess ← require_session c id; due ← refresh_due s sess; lock_if_due s c id sess due

pub record RefreshRequest : Type 0 where
  pub session_cookie : String
  pub connector : String

pub record RefreshResponse : Type 0 where
  pub set_cookie_value : String
  pub refreshed : Bool

abbrev unchanged : RefreshResponse
unchanged = record { set_cookie_value = ""; refreshed = false }

-- The variable `success` of Refresh when it returns.
abbrev pub refresh_success : Result RefreshResponse → Bool
refresh_success (ok resp) = resp.refreshed
refresh_success (err e) = false

abbrev pub granted : Result Bool → Bool
granted (ok b) = b
granted (err e) = false

-- An error replaced by another.
abbrev pub or_raise : {A : Type 0} → String → Result A → Result A
or_raise message (ok a) = ok a
or_raise message (err e) = err message

module _ (d : Deps) where
  -- Refresh, once the session is known to be due.
  unfoldable pub refresh_locked : Service → Connector → String → Session → Bool → M RefreshResponse
  refresh_locked s c id sess false = pure unchanged
  refresh_locked s c id sess true = deferring (release_lock d.env c.refresh_lock id) (do
    renew d c id sess
    value ← lift (d.cookie.encode id)
    pure (record { set_cookie_value = value; refreshed = true }))

  unfoldable pub refresh_session : Service → Connector → String → M RefreshResponse
  refresh_session s c id = do
    sess ← require_session d c id
    if sess.refresh_token == "" then raise "no refresh token" else do
      now ← read_clock d.env
      if not (needs_refresh sess now s.cfg.session_refresh_early_seconds)
          then pure unchanged
          else do
            got ←
                attempt (obtain_lock d.env c.refresh_lock id c.cfg.session_refresh_lock_ttl_seconds)
            refresh_locked s c id sess (granted got)

  unfoldable pub refresh : Service → RefreshRequest → M RefreshResponse
  refresh s req =
      finally (λ r. emit (refresh_completed (refresh_success r)))
        (do
          c ← lift (conn s req.connector)
          if req.session_cookie == "" then raise "no session cookie" else do
            id ← lift (or_raise "invalid cookie" (d.cookie.decode req.session_cookie))
            refresh_session s c id)
