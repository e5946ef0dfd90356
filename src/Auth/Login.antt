-- ===== src/Auth/Login.antt =====
-- Signing in: LoginStart, LoginEnd and callPostLoginWebhook of internal/auth/service/service.go,
-- with the random values of pkg/oidc/pkce.go. Tracing spans and log lines are left out; the
-- webhook's body and signature are made by its client.
pub mod Order
use Prim.Native.String.{◌++◌}
use accessgate.Base.{
  String, ◌==◌, Bool, true, false, not, ◌||◌, Option, none, some, [], ◌∷◌, is_empty, if◌then◌else◌,
}
use accessgate.Base.Int.{ℤ}
use accessgate.Base.Text.{trim_space}
use accessgate.Base.Dict.{Dict, insert}
use accessgate.Base.Result.{Result, ok, err}
use accessgate.Claims.{Value, text, texts, Claims, entries, get_claim_string}
use accessgate.Session.{Session, PkceState}
use accessgate.Redirect.{Url, validate_redirect}
use accessgate.Token.{Principal}
use accessgate.Auth.Env.{
  emit, login_started, login_completed, connector_called_back, M, ◌>>=◌, ◌>>◌, pure, raise, lift,
  attempt, finally, ProviderTokens, Webhook, set_session, get_pkce, set_pkce, delete_pkce,
  authorize_url, exchange, read_random, post,
}
use accessgate.Auth.Service.{Service, Connector, Deps, conn, quoted, audience_of, authoritative_id}
use accessgate.Auth.Refresh.{validate_id_token, expires_from}

pub record LoginStartRequest : Type 0 where
  pub redirect_to : String
  pub connector : String
  pub prompt : String

pub record LoginEndRequest : Type 0 where
  pub code : String
  pub state : String
  pub error : String
  pub host : String
  pub connector : String

pub record LoginEndResponse : Type 0 where
  pub redirect_url : String
  pub set_cookie_value : String
  pub clear_cookie : Bool

pub record Pkce : Type 0 where
  pub verifier : String
  pub challenge : String
  pub nonce : String

-- The browser is sent to the error page, and its cookie is cleared.
abbrev pub rejected : Service → LoginEndResponse
rejected s = record {
  redirect_url = s.cfg.app_base_url ++ s.cfg.login_error_redirect_path;
  set_cookie_value = "";
  clear_cookie = true;
}

-- `success` when LoginEnd returns: it is set right before the last return, the only one that
-- sets a cookie and does not clear it.
abbrev pub login_success : Result LoginEndResponse → Bool
login_success (ok resp) = not resp.clear_cookie
login_success (err e) = false

abbrev pub found_pkce : Result (Option PkceState) → Option PkceState
found_pkce (ok p) = p
found_pkce (err e) = none

-- The claims of the new session.
unfoldable pub login_claims : Connector → Principal → String → Claims
unfolding entries
login_claims c p auth_id =
    let named = insert "sub" (text auth_id) (entries p.claims) in
    let kind = c.cfg.claim_mapping.id_kind in
    let kinded = if kind == "" then named else insert "authoritative_id_kind" (text kind) named in
    some (if is_empty p.roles then kinded else insert "roles" (texts p.roles) kinded)

module _ (d : Deps) where
  -- ValidateRedirectURL, and what LoginStart, LoginEnd and Logout make of a redirect target.
  unfoldable pub validate_redirect_url : Service → String → String
  validate_redirect_url s redirect_to =
      let v =
        validate_redirect d.parse_url redirect_to s.cfg.app_base_url s.cfg.allowed_redirect_origins
          s.cfg.allowed_redirect_paths in
      if v == "" then s.cfg.app_base_url else v

  unfoldable pub generate_pkce : M Pkce
  generate_pkce = do
    verifier ← read_random d.env 32
    nonce ← read_random d.env 16
    pure (record { verifier = verifier; challenge = d.challenge_of verifier; nonce = nonce })

  unfoldable pub login_start : Service → LoginStartRequest → M String
  login_start s req = do
    emit login_started
    c ← lift (conn s req.connector)
    let redirect_to = validate_redirect_url s req.redirect_to
    pkce ← generate_pkce
    state ← read_random d.env 24
    let p : PkceState = record {
      state = state;
      code_verifier = pkce.verifier;
      code_challenge = pkce.challenge;
      nonce = pkce.nonce;
      redirect_to = redirect_to;
    }
    set_pkce d.env c.pkce state p c.cfg.session_pkce_ttl_seconds
    let prompt = trim_space req.prompt
    let extra : Dict String = if prompt == "" then [] else ("prompt", prompt) ∷ []
    authorize_url d.env c.provider state pkce.challenge pkce.nonce extra

  unfoldable pub call_post_login_webhook : Webhook → M (Unit {0})
  call_post_login_webhook w = elim (d.parse_url w.url) [
    | none ↦ raise "webhook: invalid URL"
    | some u ↦
        if u.scheme == "https"
        then post d.env w
        else raise ("webhook: URL scheme " ++ (quoted u.scheme ++ " not allowed (must be https)"))
  ]

  -- The subject of the new session.
  unfoldable pub login_id : Connector → Principal → String
  login_id c p =
      let mapped = authoritative_id d.strconv c p.claims in
      if mapped == "" then p.subject else mapped

  unfoldable pub new_session : Connector → ProviderTokens → Principal → String → ℤ → Session
  new_session c tokens p id expires_at = record {
    id = id;
    access_token = tokens.access_token;
    refresh_token = tokens.refresh_token;
    id_token = tokens.id_token;
    expires_at = expires_at;
    claims = login_claims c p (login_id c p);
    tenant_context = none;
  }

  -- LoginEnd, once the session is stored.
  unfoldable pub welcome :
      Service → LoginEndRequest → PkceState → Principal → Session → M LoginEndResponse
  welcome s req pkce p sess = do
    let webhook : Webhook = record {
      url = s.cfg.post_login_webhook_url;
      session_id = sess.id;
      subject = p.subject;
      email = get_claim_string sess.claims "email";
      claims = sess.claims;
      host = req.host;
    }
    if s.cfg.post_login_webhook_url == ""
        then pure (ok tt)
        else attempt (call_post_login_webhook webhook)
    value ← lift (d.cookie.encode sess.id)
    pure (record {
      redirect_url = validate_redirect_url s pkce.redirect_to;
      set_cookie_value = value;
      clear_cookie = false;
    })

  -- LoginEnd, once the ID token is validated.
  unfoldable pub sign_in :
      Service
      → Connector
      → LoginEndRequest
      → PkceState
      → ProviderTokens
      → Principal
      → M LoginEndResponse
  sign_in s c req pkce tokens p = do
    expires_at ← expires_from d tokens.expires_in
    id ← read_random d.env 32
    set_session d.env c.sessions id (new_session c tokens p id expires_at) c.cfg.session_ttl_seconds
    welcome s req pkce p (new_session c tokens p id expires_at)

  unfoldable pub after_validation :
      Service
      → Connector
      → LoginEndRequest
      → PkceState
      → ProviderTokens
      → Result Principal
      → M LoginEndResponse
  after_validation s c req pkce tokens (err e) = pure (rejected s)
  after_validation s c req pkce tokens (ok p) = sign_in s c req pkce tokens p

  unfoldable pub after_exchange :
      Service → Connector → LoginEndRequest → PkceState → Result ProviderTokens → M LoginEndResponse
  after_exchange s c req pkce (err e) = pure (rejected s)
  after_exchange s c req pkce (ok tokens) = do
    checked ←
        attempt (validate_id_token d tokens.id_token c.cfg.oidc_issuer (audience_of c) pkce.nonce)
    after_validation s c req pkce tokens checked

  -- LoginEnd, once the PKCE store has answered.
  unfoldable pub after_pkce :
      Service → Connector → LoginEndRequest → Option PkceState → M LoginEndResponse
  after_pkce s c req none = pure (rejected s)
  after_pkce s c req (some pkce) = do
    attempt (delete_pkce d.env c.pkce req.state)
    got ← attempt (exchange d.env c.provider req.code pkce.code_verifier c.cfg.oidc_redirect_uri)
    after_exchange s c req pkce got

  unfoldable pub login_callback : Service → Connector → LoginEndRequest → M LoginEndResponse
  login_callback s c req =
      if not (req.error == "")
      then pure (rejected s)
      else if req.state == "" || req.code == ""
      then pure (rejected s)
      else do got ← attempt (get_pkce d.env c.pkce req.state); after_pkce s c req (found_pkce got)

  unfoldable pub login_end : Service → LoginEndRequest → M LoginEndResponse
  login_end s req =
      finally (λ r. emit (login_completed (login_success r)))
        (do
          c ← lift (conn s req.connector)
          finally (λ r. emit (connector_called_back c.cfg.id (login_success r)))
              (login_callback s c req))
