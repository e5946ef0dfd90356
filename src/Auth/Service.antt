-- ===== src/Auth/Service.antt =====
-- The service's configuration and its connectors: New, newService, conn and the helpers on claims
-- of internal/auth/service/service.go, with the configuration of internal/auth/config/config.go.
pub mod Laws
use Prim.Native.String.{◌++◌}
use accessgate.Base.{
  ℕ, String, ◌==◌, Bool, true, not, ◌&&◌, ◌||◌, Option, none, some, List, [], ◌∷◌, if◌then◌else◌,
}
use accessgate.Base.Int.{ℤ, pos, leb_ℤ}
use accessgate.Base.Dict.{Dict, lookup, insert}
use accessgate.Base.Result.{Result, ok, err}
use accessgate.Claims.{
  Value, text, json_number, float64, int64, int, Claims, entries, get_claim_string,
}
use accessgate.Session.{Session}
use accessgate.Redirect.{Url}
use accessgate.Token.{Numbers}
use accessgate.Auth.Env.{Env}

pub record ClaimMapping : Type 0 where
  pub authoritative_id_claim : String
  pub id_kind : String
  pub email_claim : String
  pub name_claim : String
  pub roles_claim : String

pub record ConnectorConfig : Type 0 where
  pub id : String
  pub default : Bool
  pub provider_plugin_id : String
  pub oidc_issuer : String
  pub oidc_redirect_uri : String
  pub oidc_client_id : String
  pub oidc_client_secret : String
  pub oidc_scopes : List String
  pub oidc_audience : String
  pub oidc_claims_source : String
  pub session_redis_prefix : String
  pub cookie_name : String
  pub session_ttl_seconds : ℤ
  pub session_pkce_ttl_seconds : ℤ
  pub session_refresh_lock_ttl_seconds : ℤ
  pub claim_mapping : ClaimMapping

-- http.SameSite, as parseSameSite makes it; `unset` is its zero value.
pub data SameSite : Type 0 where
  unset lax strict none_mode : SameSite

pub record Config : Type 0 where
  pub oidc_issuer : String
  pub oidc_redirect_uri : String
  pub oidc_client_id : String
  pub oidc_client_secret : String
  pub oidc_scopes : List String
  pub oidc_audience : String
  pub oidc_claims_source : String
  pub redis_url : String
  pub session_redis_prefix : String
  pub session_ttl_seconds : ℤ
  pub session_pkce_ttl_seconds : ℤ
  pub session_refresh_lock_ttl_seconds : ℤ
  pub session_refresh_early_seconds : ℤ
  pub cookie_name : String
  pub cookie_signing_secret : String
  pub cookie_secure : Bool
  pub cookie_same_site_str : String
  pub cookie_domain : String
  pub cookie_same_site : SameSite
  pub app_base_url : String
  pub login_error_redirect_path : String
  pub allowed_redirect_origins : List String
  pub allowed_redirect_paths : List String
  pub http_port : String
  pub admin_secret : String
  pub post_login_webhook_url : String
  pub cors_allowed_origins : List String
  pub provider_plugin_id : String
  pub connectors : List ConnectorConfig

-- The wiring of one connector; `none` is a nil provider or finder.
pub record ConnectorWiring : Type 0 where
  pub config : ConnectorConfig
  pub provider : Option ℕ
  pub sessions : ℕ
  pub pkce : ℕ
  pub refresh_lock : ℕ
  pub finder : Option ℕ

-- cookie.CookieOptions.
pub record CookieOptions : Type 0 where
  pub path : String
  pub domain : String
  pub secure : Bool
  pub http_only : Bool
  pub same_site : SameSite
  pub max_age : ℤ

pub record Connector : Type 0 where
  pub cfg : ConnectorConfig
  pub provider : ℕ
  pub sessions : ℕ
  pub pkce : ℕ
  pub refresh_lock : ℕ
  pub finder : Option ℕ
  pub cookie_name : String
  pub cookie_opts : CookieOptions

pub record Service : Type 0 where
  pub cfg : Config
  pub connectors : Dict Connector
  pub default_id : String

abbrev pub or_default : String → String → String
or_default v d = if v == "" then d else v

abbrev is_zero : ℤ → Bool
is_zero v = leb_ℤ v (pos 0) && leb_ℤ (pos 0) v

-- %q, for ids that need no escape: the configuration admits [A-Za-z0-9_-]+ alone.
abbrev pub quoted : String → String
quoted s = "\"" ++ (s ++ "\"")

unfoldable pub new_connector : Config → ConnectorWiring → ℕ → Connector
new_connector cfg w provider = record {
  cfg = w.config;
  provider = provider;
  sessions = w.sessions;
  pkce = w.pkce;
  refresh_lock = w.refresh_lock;
  finder = w.finder;
  cookie_name = or_default w.config.cookie_name cfg.cookie_name;
  cookie_opts = record {
    path = "/";
    domain = cfg.cookie_domain;
    secure = cfg.cookie_secure;
    http_only = true;
    same_site = cfg.cookie_same_site;
    max_age =
        if is_zero w.config.session_ttl_seconds
        then cfg.session_ttl_seconds
        else w.config.session_ttl_seconds;
  };
}

-- One round of newService's loop.
unfoldable pub add_connector : Service → ConnectorWiring → Result Service
unfolding new_connector
add_connector s w = elim w.provider [
  | none ↦ err ("connector " ++ (quoted w.config.id ++ ": provider is required"))
  | some provider ↦
      let id = or_default w.config.id "default" in
      ok (record s {
        connectors = insert id (new_connector s.cfg w provider) s.connectors;
        default_id = if w.config.default || s.default_id == "" then id else s.default_id;
      })
]

unfoldable pub add_connectors : Service → List ConnectorWiring → Result Service
unfolding add_connector
add_connectors s [] = ok s
add_connectors s (w ∷ ws) = elim (add_connector s w) [
  | err e ↦ err e
  | ok s' ↦ add_connectors s' ws
]

unfoldable pub new_service : Config → List ConnectorWiring → Result Service
unfolding add_connectors
new_service cfg ws = add_connectors (record { cfg = cfg; connectors = []; default_id = "" }) ws

-- A connector by its id; the empty id is the default connector's.
unfoldable pub conn : Service → String → Result Connector
conn s id =
    let name = if id == "" then s.default_id else id in
    elim (lookup name s.connectors) [
      | none ↦ err ("unknown connector " ++ quoted name)
      | some c ↦ ok c
    ]

unfoldable pub connector_cookie_name : Service → String → String
unfolding conn
connector_cookie_name s id = elim (conn s id) [ err e ↦ s.cfg.cookie_name | ok c ↦ c.cookie_name ]

-- strconv's FormatFloat(x, 'f', -1, 64), FormatInt(x, 10) and Itoa.
pub record Strconv : Type 0 where
  pub format_float : ℕ → String
  pub format_int : ℤ → String

module _ (strconv : Strconv) where
  unfoldable pub claim_to_string : Option Value → String
  claim_to_string (some (text x)) = x
  claim_to_string (some (json_number x)) = x
  claim_to_string (some (float64 x)) = strconv.format_float x
  claim_to_string (some (int64 x)) = strconv.format_int x
  claim_to_string (some (int x)) = strconv.format_int x
  claim_to_string _ = ""

  -- `claims == nil` reads as no entry.
  unfoldable pub authoritative_id : Connector → Claims → String
  unfolding claim_to_string entries
  authoritative_id c claims =
      let key = c.cfg.claim_mapping.authoritative_id_claim in
      if key == "" || key == "sub" then "" else claim_to_string (lookup key (entries claims))

  -- The identity that a refreshed session carries.
  unfoldable pub refreshed_id : Connector → Session → Dict Value → String
  unfolding authoritative_id
  refreshed_id c sess new_claims =
      let key = c.cfg.claim_mapping.authoritative_id_claim in
      let prev_sub = get_claim_string sess.claims "sub" in
      let mapped = authoritative_id c (some new_claims) in
      if not (mapped == "")
      then mapped
      else if not (key == "") && not (key == "sub") && not (prev_sub == "")
      then prev_sub
      else get_claim_string (some new_claims) "sub"

  unfoldable pub refreshed_kind : Connector → Session → String
  refreshed_kind c sess =
      if not (c.cfg.claim_mapping.id_kind == "")
      then c.cfg.claim_mapping.id_kind
      else get_claim_string sess.claims "authoritative_id_kind"

  unfoldable pub apply_refreshed_claims : Connector → Session → Dict Value → Session
  unfolding refreshed_id refreshed_kind
  apply_refreshed_claims c sess new_claims =
      let auth_id = refreshed_id c sess new_claims in
      let kind = refreshed_kind c sess in
      let named =
        if not (auth_id == "") then insert "sub" (text auth_id) new_claims else new_claims in
      record sess {
        claims =
            some (
              if not (kind == "") then insert "authoritative_id_kind" (text kind) named else named);
      }

-- The audience that an ID token must name.
unfoldable pub audience_of : Connector → String
audience_of c = or_default c.cfg.oidc_audience c.cfg.oidc_client_id

-- The cookie manager (pkg/cookie/manager.go); Cookie.antt is the one that the program wires in.
pub record CookieManager : Type 0 where
  pub encode : String → Result String
  pub decode : String → Result String

-- What the flows are given: the environment, the cookie manager, net/url's parser, the number
-- conversions, and SHA-256 in base64's URL alphabet.
pub record Deps : Type 0 where
  pub env : Env
  pub cookie : CookieManager
  pub parse_url : String → Option Url
  pub numbers : Numbers
  pub strconv : Strconv
  pub challenge_of : String → String
