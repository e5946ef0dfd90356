-- ===== src/Auth/Resolve.antt =====
-- The calls of the proxy: Session, EnsureFreshSessionByID, EnsureFreshSessionForConnector, Resolve,
-- ResolveForConnector and AttachTenantContext(ForConnector) of internal/auth/service/service.go.
use accessgate.Base.{String, ◌==◌, Bool, Option, none, some, [], ◌∷◌, if◌then◌else◌}
use accessgate.Base.Dict.{Dict}
use accessgate.Base.Result.{Result, ok, err}
use accessgate.Claims.{Value, text, Claims, entries}
use accessgate.Session.{Session, TenantContext}
use accessgate.Auth.Env.{M, ◌>>=◌, pure, raise, lift, attempt, get_session, set_session}
use accessgate.Auth.Service.{Service, Deps, conn}
use accessgate.Auth.Refresh.{require_session, ensure_fresh, or_raise}

pub record Resolved : Type 0 where
  pub access_token : String
  pub claims : Dict Value
  pub tenant_context : Claims
  pub set_cookie_value : String

unfoldable pub tenant_map : TenantContext → Dict Value
tenant_map tc =
    ("tenant_id", text tc.tenant_id)
    ∷ ("tenant_slug", text tc.tenant_slug)
    ∷ ("status", text tc.status)
    ∷ ("locale", text tc.locale)
    ∷ ("timezone", text tc.timezone)
    ∷ []

unfoldable pub tenant_claims : Option TenantContext → Claims
unfolding tenant_map
tenant_claims none = none
tenant_claims (some tc) = some (tenant_map tc)

abbrev pub found_or_none : Result (Option Session) → Option Session
found_or_none (ok s) = s
found_or_none (err e) = none

module _ (d : Deps) where
  -- Session: the session that the response shows, `none` where it shows none.
  unfoldable pub shown_session : Service → String → String → M (Option Session)
  shown_session s cookie connector = if cookie == "" then pure none else elim (conn s connector) [
    | err e ↦ pure none
    | ok c ↦ (elim (d.cookie.decode cookie) [
      | err e ↦ pure none
      | ok id ↦ do got ← attempt (get_session d.env c.sessions id); pure (found_or_none got)
    ])
  ]

  unfoldable pub ensure_fresh_session_for_connector : Service → String → String → M (Session × Bool)
  ensure_fresh_session_for_connector s connector id = do
    c ← lift (conn s connector)
    ensure_fresh d s c id

  unfoldable pub ensure_fresh_session_by_id : Service → String → M (Session × Bool)
  ensure_fresh_session_by_id s id = do c ← lift (conn s ""); ensure_fresh d s c id

  -- What a fresh session resolves to; a refreshed one also renews the cookie.
  unfoldable pub resolved_from : String → Session → Bool → M Resolved
  unfolding entries tenant_claims
  resolved_from id sess refreshed = do
    value ← if refreshed then lift (d.cookie.encode id) else pure ""
    pure (record {
      access_token = sess.access_token;
      claims = entries sess.claims;
      tenant_context = tenant_claims sess.tenant_context;
      set_cookie_value = value;
    })

  unfoldable pub resolve_for_connector : Service → String → String → M Resolved
  resolve_for_connector s connector cookie = if cookie == "" then raise "no session cookie" else do
    c ← lift (conn s connector)
    id ← lift (or_raise "invalid cookie" (d.cookie.decode cookie))
    fresh ← ensure_fresh d s c id
    resolved_from id fresh.0 fresh.1

  unfoldable pub resolve : Service → String → M Resolved
  resolve s cookie = resolve_for_connector s "" cookie

  unfoldable pub attach_tenant_context_for_connector :
      Service → String → String → Option TenantContext → M (Unit {0})
  attach_tenant_context_for_connector s connector id none =
      raise "session_id and tenant_context required"
  attach_tenant_context_for_connector s connector id (some tc) =
      if id == "" then raise "session_id and tenant_context required" else do
        c ← lift (conn s connector)
        sess ← require_session d c id
        set_session d.env c.sessions id (record sess { tenant_context = some tc })
            c.cfg.session_ttl_seconds

  unfoldable pub attach_tenant_context : Service → String → Option TenantContext → M (Unit {0})
  attach_tenant_context s id tc = attach_tenant_context_for_connector s "" id tc
