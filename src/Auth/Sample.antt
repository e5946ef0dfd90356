-- ===== src/Auth/Sample.antt =====
-- A world for the tests of the auth service: one connector "web", whose store has one session that
-- is due for a refresh, and a provider that answers every call.
use Prim.Native.String.{◌++◌}
use accessgate.Base.{◌==◌, true, none, some, [], ◌∷◌, ◌*◌, if◌then◌else◌}
use accessgate.Base.Int.{pos}
use accessgate.Base.Dict.{Dict}
use accessgate.Base.Result.{ok, err}
use accessgate.Claims.{Value, text}
use accessgate.Session.{Session, PkceState}
use accessgate.Handoff.{Ticket, Issuer, TicketJson, second}
use accessgate.Auth.Env.{Env, ProviderTokens}
use accessgate.Auth.Service.{lax, Service, Config, Connector, ConnectorConfig, Deps}

abbrev pub due_session : Session
due_session = record {
  id = "s1";
  access_token = "at-0";
  refresh_token = "rt-0";
  id_token = "it-0";
  expires_at = pos 1000;
  claims = some (("sub", text "u1") ∷ []);
  tenant_context = none;
}

abbrev pkce_state : PkceState
pkce_state = record {
  state = "st";
  code_verifier = "v";
  code_challenge = "ch";
  nonce = "n";
  redirect_to = "https://app.example.com";
}

abbrev new_tokens : ProviderTokens
new_tokens = record {
  access_token = "at-1";
  refresh_token = "rt-1";
  id_token = "it-1";
  expires_in = pos 300;
}

abbrev id_claims : Dict Value
id_claims = ("sub", text "u1") ∷ ("aud", text "client") ∷ ("nonce", text "n") ∷ []

abbrev pub sample_env : Env
sample_env = record {
  session_get = λ t store id. ok (some due_session);
  session_set = λ t store id s ttl. ok tt;
  session_delete = λ t store id. ok tt;
  session_find = λ t finder subject email. ok (some due_session);
  pkce_get = λ t store state. ok (some pkce_state);
  pkce_set = λ t store state p ttl. ok tt;
  pkce_delete = λ t store state. ok tt;
  lock_obtain = λ t lock id ttl. ok true;
  lock_release = λ t lock id. ok tt;
  authorization_url = λ t provider state challenge nonce extra. ok "https://idp.example.com/auth";
  exchange_code = λ t provider code verifier uri. ok new_tokens;
  refresh = λ t provider token. ok new_tokens;
  end_session_url = λ t provider hint to. ok "";
  get_jwks = λ t issuer. ok "keys";
  parse_jwt = λ t jwks raw issuer. ok id_claims;
  random = λ t size. ok "random";
  now = λ t. pos 990;
  now_nanos = λ t. 1000 * second;
  consume_once = λ t key ttl. ok true;
  post_webhook = λ t w. ok tt;
}

abbrev pub web_config : ConnectorConfig
web_config = record {
  id = "web";
  default = true;
  oidc_issuer = "https://idp.example.com";
  oidc_redirect_uri = "https://app.example.com/callback";
  provider_plugin_id = "";
  oidc_client_id = "client";
  oidc_client_secret = "s";
  oidc_scopes = "openid" ∷ [];
  oidc_audience = "";
  oidc_claims_source = "id_token";
  session_redis_prefix = "";
  cookie_name = "sid";
  session_ttl_seconds = pos 3600;
  session_pkce_ttl_seconds = pos 300;
  session_refresh_lock_ttl_seconds = pos 10;
  claim_mapping = record {
    authoritative_id_claim = "";
    id_kind = "";
    email_claim = "";
    name_claim = "";
    roles_claim = "";
  };
}

abbrev pub web : Connector
web = record {
  cfg = web_config;
  provider = 1;
  sessions = 2;
  pkce = 3;
  refresh_lock = 4;
  finder = some 5;
  cookie_name = "sid";
  cookie_opts = record {
    path = "/";
    domain = "";
    secure = true;
    http_only = true;
    same_site = lax;
    max_age = pos 3600;
  };
}

abbrev pub config : Config
config = record {
  oidc_issuer = "";
  oidc_redirect_uri = "";
  oidc_client_id = "";
  oidc_client_secret = "";
  oidc_scopes = [];
  oidc_audience = "";
  oidc_claims_source = "";
  redis_url = "redis://localhost:6379/0";
  session_redis_prefix = "";
  session_ttl_seconds = pos 3600;
  session_pkce_ttl_seconds = pos 300;
  session_refresh_lock_ttl_seconds = pos 10;
  session_refresh_early_seconds = pos 60;
  cookie_name = "sid";
  cookie_signing_secret = "key";
  cookie_secure = true;
  cookie_same_site_str = "";
  cookie_domain = "";
  cookie_same_site = lax;
  app_base_url = "https://app.example.com";
  login_error_redirect_path = "/login-error";
  allowed_redirect_origins = [];
  allowed_redirect_paths = [];
  http_port = "8080";
  admin_secret = "";
  post_login_webhook_url = "";
  cors_allowed_origins = [];
  provider_plugin_id = "";
  connectors = web_config ∷ [];
}

abbrev pub service : Service
service = record { cfg = config; connectors = ("web", web) ∷ []; default_id = "web" }

abbrev pub deps : Deps
deps = record {
  env = sample_env;
  cookie = record {
    encode = λ id. ok ("signed:" ++ id);
    decode = λ v. if v == "signed:s1" then ok "s1" else err "bad";
  };
  parse_url = λ s. none;
  numbers = record { of_float = λ x. pos x; of_number = λ s. pos 0 };
  strconv = record { format_float = λ x. "float"; format_int = λ x. "int" };
  challenge_of = λ v. v;
}

abbrev pub issuer : Issuer
issuer = record { secret = "key"; ttl = pos (120 * second) }

abbrev sample_ticket : Ticket
sample_ticket = record {
  connector_id = "web";
  authoritative_id = "u1";
  session_ref = "s1";
  issued_at = pos 1000;
  expires_at = pos 1120;
  jti = "j1";
}

abbrev pub ticket_json : TicketJson
ticket_json = record {
  marshal = λ t. t.jti;
  unmarshal = λ s. if s == "j1" then some sample_ticket else none;
}
