-- ===== src/Auth/Settings/Defaults.antt =====
-- The configuration's defaults and its validation: ApplyDefaults, Normalize, Validate and KeyLayout
-- of internal/auth/config/config.go.
use Prim.Native.String.{◌++◌}
use accessgate.Base.{
  String, ◌==◌, true, not, ◌&&◌, ◌||◌, Option, none, some, List, [], ◌∷◌, is_empty, if◌then◌else◌,
}
use accessgate.Base.Int.{ℤ, pos, leb_ℤ}
use accessgate.Session.Layout.{KeyLayout}
use accessgate.Auth.Service.{
  ClaimMapping, ConnectorConfig, Config, SameSite, lax, strict, none_mode, or_default,
}
use accessgate.Auth.Settings.{ConfigError, validate_connectors}

-- if v == 0 { v = d }
abbrev pub or_count : ℤ → ℤ → ℤ
or_count v d = if leb_ℤ v (pos 0) && leb_ℤ (pos 0) v then d else v

-- if len(v) == 0 { v = d }
abbrev pub or_list : List String → List String → List String
or_list v d = if is_empty v then d else v

abbrev pub default_scopes : List String
default_scopes = "openid" ∷ "profile" ∷ []

unfoldable pub apply_defaults : Config → Config
apply_defaults c = record c {
  oidc_claims_source = or_default c.oidc_claims_source "id_token";
  session_redis_prefix = or_default c.session_redis_prefix "auth";
  session_ttl_seconds = or_count c.session_ttl_seconds (pos 36000);
  session_pkce_ttl_seconds = or_count c.session_pkce_ttl_seconds (pos 300);
  session_refresh_lock_ttl_seconds = or_count c.session_refresh_lock_ttl_seconds (pos 15);
  session_refresh_early_seconds = or_count c.session_refresh_early_seconds (pos 60);
  cookie_name = or_default c.cookie_name "__Host-ess_session";
  login_error_redirect_path = or_default c.login_error_redirect_path "/login?error=oidc_error";
  http_port = or_default c.http_port "8080";
}

-- The connector that the top-level fields stand for.
unfoldable pub legacy_connector : Config → ConnectorConfig
legacy_connector c = record {
  id = "default";
  default = true;
  provider_plugin_id = c.provider_plugin_id;
  oidc_issuer = c.oidc_issuer;
  oidc_redirect_uri = c.oidc_redirect_uri;
  oidc_client_id = c.oidc_client_id;
  oidc_client_secret = c.oidc_client_secret;
  oidc_scopes = c.oidc_scopes;
  oidc_audience = c.oidc_audience;
  oidc_claims_source = c.oidc_claims_source;
  session_redis_prefix = "";
  cookie_name = "";
  session_ttl_seconds = pos 0;
  session_pkce_ttl_seconds = pos 0;
  session_refresh_lock_ttl_seconds = pos 0;
  claim_mapping = record {
    authoritative_id_claim = "";
    id_kind = "";
    email_claim = "";
    name_claim = "";
    roles_claim = "";
  };
}

-- The list behind the first two steps of Normalize: never empty, and one alone is the default.
unfoldable pub listed_connectors : Config → List ConnectorConfig → List ConnectorConfig
listed_connectors c [] = legacy_connector c ∷ []
listed_connectors c (conn ∷ []) = record conn { default = true } ∷ []
listed_connectors c (a ∷ b ∷ more) = a ∷ b ∷ more

abbrev pub claims_source : String → String
claims_source s = if not (s == "id_token") && not (s == "access_token") then "id_token" else s

unfoldable pub fill_mapping : String → ClaimMapping → ClaimMapping
fill_mapping id m =
    let claim = or_default m.authoritative_id_claim "sub" in
    record m {
      authoritative_id_claim = claim;
      id_kind = or_default m.id_kind (if claim == "sub" then "oidc_sub" else id);
    }

-- One round of Normalize's loop.
unfoldable pub fill_connector : Config → ConnectorConfig → ConnectorConfig
unfolding fill_mapping
fill_connector c conn =
    let base = or_default c.session_redis_prefix "auth" in
    let legacy_cookie = or_default c.cookie_name "__Host-ess_session" in
    record conn {
      provider_plugin_id = or_default conn.provider_plugin_id c.provider_plugin_id;
      oidc_scopes = or_list conn.oidc_scopes default_scopes;
      oidc_claims_source = claims_source conn.oidc_claims_source;
      session_redis_prefix =
          or_default conn.session_redis_prefix
            (if conn.default then base else base ++ (":" ++ conn.id));
      cookie_name =
          or_default conn.cookie_name
            (if conn.default then legacy_cookie else legacy_cookie ++ ("_" ++ conn.id));
      session_ttl_seconds = or_count conn.session_ttl_seconds c.session_ttl_seconds;
      session_pkce_ttl_seconds = or_count conn.session_pkce_ttl_seconds c.session_pkce_ttl_seconds;
      session_refresh_lock_ttl_seconds =
          or_count conn.session_refresh_lock_ttl_seconds c.session_refresh_lock_ttl_seconds;
      claim_mapping = fill_mapping conn.id conn.claim_mapping;
    }

unfoldable pub fill_all : Config → List ConnectorConfig → List ConnectorConfig
unfolding fill_connector
fill_all c [] = []
fill_all c (conn ∷ more) = fill_connector c conn ∷ fill_all c more

unfoldable pub normalize : Config → Config
unfolding fill_all listed_connectors
normalize c = record c { connectors = fill_all c (listed_connectors c c.connectors) }

pub data SettingsError : Type 0 where
  missing : String → SettingsError
  placeholder_secret : SettingsError
  connectors_invalid : ConfigError → SettingsError

unfoldable pub required_error : Config → Option SettingsError
required_error c =
    if c.redis_url == ""
    then some (missing "REDIS_URL")
    else if c.cookie_signing_secret == ""
    then some (missing "COOKIE_SIGNING_SECRET")
    else if c.oidc_client_secret == "your-client-secret"
        || c.cookie_signing_secret == "CHANGE-ME-in-production"
    then some placeholder_secret
    else if c.app_base_url == ""
    then some (missing "APP_BASE_URL")
    else none

-- The checks of the single-provider mode.
unfoldable pub legacy_error : Config → Option SettingsError
legacy_error c =
    if c.oidc_issuer == ""
    then some (missing "OIDC_ISSUER")
    else if c.oidc_redirect_uri == ""
    then some (missing "OIDC_REDIRECT_URI")
    else if c.oidc_client_id == ""
    then some (missing "OIDC_CLIENT_ID")
    else none

unfoldable pub connectors_error : List ConnectorConfig → Option SettingsError
connectors_error cs = elim (validate_connectors cs) [
  | none ↦ none
  | some e ↦ some (connectors_invalid e)
]

-- `lower` is strings.ToLower.
module _ (lower : String → String) where
  unfoldable pub parse_same_site : String → SameSite
  parse_same_site s =
      if lower s == "strict" then strict else if lower s == "none" then none_mode else lax

  unfoldable pub validate_providers : Config → Option SettingsError × Config
  unfolding legacy_error connectors_error
  validate_providers c =
      if is_empty c.connectors
      then elim (legacy_error c) [
        | some e ↦ (some e, c)
        | none ↦ (
          none,
          record c {
            oidc_claims_source = claims_source c.oidc_claims_source;
            oidc_scopes = or_list c.oidc_scopes default_scopes;
          },
        )
      ]
      else (connectors_error c.connectors, c)

  -- Validate: its error, and the configuration it leaves.
  unfoldable pub validate : Config → Option SettingsError × Config
  unfolding required_error parse_same_site validate_providers
  validate c = elim (required_error c) [
    | some e ↦ (some e, c)
    | none ↦ validate_providers (record c {
      cookie_same_site = parse_same_site c.cookie_same_site_str;
      allowed_redirect_paths = or_list c.allowed_redirect_paths ("/" ∷ []);
    })
  ]

-- Both KeyLayout methods, of the configuration and of a connector.
unfoldable pub layout_of : String → ℤ → ℤ → ℤ → KeyLayout
layout_of prefix session_ttl pkce_ttl lock_ttl =
    let p = or_default prefix "auth" in
    record {
      session_prefix = p ++ ":session:";
      pkce_prefix = p ++ ":pkce:";
      refresh_lock_prefix = p ++ ":refresh_lock:";
      revoked_prefix = p ++ ":revoked:";
      replay_prefix = p ++ ":replay:";
      session_ttl_seconds = session_ttl;
      pkce_ttl_seconds = pkce_ttl;
      refresh_lock_ttl_seconds = lock_ttl;
    }

unfoldable pub config_key_layout : Config → KeyLayout
unfolding layout_of
config_key_layout c =
    layout_of c.session_redis_prefix c.session_ttl_seconds c.session_pkce_ttl_seconds
      c.session_refresh_lock_ttl_seconds

unfoldable pub connector_key_layout : ConnectorConfig → KeyLayout
unfolding layout_of
connector_key_layout c =
    layout_of c.session_redis_prefix c.session_ttl_seconds c.session_pkce_ttl_seconds
      c.session_refresh_lock_ttl_seconds
