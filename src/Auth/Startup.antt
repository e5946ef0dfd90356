-- ===== src/Auth/Startup.antt =====
-- New, NewWithRuntimeStoreProvider and NewMultiConnector of internal/auth/service/service.go.
-- `lower` is strings.ToLower.
pub mod Ready
use accessgate.Base.{
  ℕ, String, ◌≡◌, refl, ◌∙◌, sym, ap, Option, none, some, List, [], ◌∷◌, ◌⊎◌, inl, inr, is_empty,
  false, true, arith, if◌then◌else◌, Option-cases,
}
use accessgate.Base.Result.{Result, ok, err}
use accessgate.Auth.Service.{
  Config, ConnectorConfig, ConnectorWiring, Connector, Service, add_connector, add_connectors,
  new_service, conn,
}
use accessgate.Auth.Service.Laws.{new_service-conn}
use accessgate.Auth.Settings.{default_connector}
use accessgate.Auth.Settings.Defaults.{SettingsError, validate}
use accessgate.Auth.Settings.Usable.{IsUsable, IsProvided, validate-IsUsable}

pub data StartError : Type 0 where
  settings_invalid : SettingsError → StartError
  refused : String → StartError

-- The runtime's stores, as handles.
pub record RuntimeStores : Type 0 where
  pub sessions : ℕ
  pub pkce : ℕ
  pub refresh_lock : ℕ

unfoldable pub default_connector_config : Config → ConnectorConfig
unfolding default_connector
default_connector_config c = elim (default_connector c.connectors) [
  | some found ↦ found
  | none ↦ record {
    id = "default";
    default = true;
    provider_plugin_id = c.provider_plugin_id;
    oidc_issuer = c.oidc_issuer;
    oidc_redirect_uri = c.oidc_redirect_uri;
    oidc_client_id = c.oidc_client_id;
    oidc_client_secret = c.oidc_client_secret;
    oidc_scopes = c.oidc_scopes;
    oidc_audience = c.oidc_audience;
    oidc_claims_source = c.oidc_claims_source;
    session_redis_prefix = c.session_redis_prefix;
    cookie_name = c.cookie_name;
    session_ttl_seconds = c.session_ttl_seconds;
    session_pkce_ttl_seconds = c.session_pkce_ttl_seconds;
    session_refresh_lock_ttl_seconds = c.session_refresh_lock_ttl_seconds;
    claim_mapping = record {
      authoritative_id_claim = "sub";
      id_kind = "oidc_sub";
      email_claim = "";
      name_claim = "";
      roles_claim = "";
    };
  }
]

abbrev pub started : Result Service → StartError ⊎ Service
started (ok s) = inr s
started (err e) = inl (refused e)

abbrev pub single_wiring : Config → RuntimeStores → ℕ → ConnectorWiring
single_wiring valid stores p = record {
  config = default_connector_config valid;
  provider = some p;
  sessions = stores.sessions;
  pkce = stores.pkce;
  refresh_lock = stores.refresh_lock;
  finder = none;
}

module _ (lower : String → String) where
  unfoldable pub new_multi_connector : Config → List ConnectorWiring → StartError ⊎ Service
  unfolding validate new_service
  new_multi_connector cfg ws =
      let (problem, valid) = validate lower cfg in
      elim problem [
        | some e ↦ inl (settings_invalid e)
        | none ↦ (elim ws [
          | [] ↦ inl (refused "at least one connector is required")
          | w ∷ more ↦ started (new_service valid (w ∷ more))
        ])
      ]

  unfoldable pub new : Config → RuntimeStores → Option ℕ → StartError ⊎ Service
  unfolding validate new_service default_connector_config
  new cfg stores provider =
      let (problem, valid) = validate lower cfg in
      elim problem [
        | some e ↦ inl (settings_invalid e)
        | none ↦ (elim provider [
          | none ↦ inl (refused "provider is required")
          | some p ↦ started (new_service valid (single_wiring valid stores p ∷ []))
        ])
      ]

  unfoldable pub new_with_runtime_store_provider :
      Config → Option RuntimeStores → Option ℕ → StartError ⊎ Service
  unfolding new
  new_with_runtime_store_provider cfg none provider = inl (refused "runtime stores are required")
  new_with_runtime_store_provider cfg (some stores) provider = new cfg stores provider
