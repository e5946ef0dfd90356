-- ===== src/Auth/Settings/Usable.antt =====
-- What Normalize and Validate of internal/auth/config/config.go make of a configuration.
use Prim.Native.String.{◌++◌}
use accessgate.Base.{
  ◌⊎◌, ◌∙◌, String, ◌==◌, ◌≡◌, refl, true, false, none, List, [], ◌∷◌, is_empty, arith,
  if◌then◌else◌, Bool-cases, Option-cases, inl, inr, eq_iff, All, ap,
}
use accessgate.Base.Int.{ℤ}
use accessgate.Auth.Service.{ClaimMapping, ConnectorConfig, Config, or_default}
use accessgate.Auth.Settings.{validate_connectors}
use accessgate.Auth.Settings.Valid.{
  IsComplete, AreDistinct, count_defaults, validate_connectors-IsValid,
}
use accessgate.Auth.Settings.Defaults.{
  parse_same_site, connectors_error, legacy_connector, or_count, or_list, default_scopes,
  claims_source, fill_mapping, fill_connector, fill_all, listed_connectors, normalize,
  required_error, legacy_error, validate_providers, validate,
}

or_default_twice : (v d : String) → or_default (or_default v d) d ≡ or_default v d
or_default_twice v d = ground arith

or_count_twice : (v d : ℤ) → or_count (or_count v d) d ≡ or_count v d
or_count_twice v d = ground arith

or_list_twice : (v d : List String) → or_list (or_list v d) d ≡ or_list v d
or_list_twice v d = ground arith

claims_source_twice : (s : String) → claims_source (claims_source s) ≡ claims_source s
claims_source_twice s = ground (arith, eq_iff s "id_token")

fill_mapping_twice :
    (id : String) (m : ClaimMapping) → fill_mapping id (fill_mapping id m) ≡ fill_mapping id m
unfolding fill_mapping
fill_mapping_twice id m = ground arith

fill_connector_twice :
    (c c' : Config) (conn : ConnectorConfig)
    → fill_connector (record c { connectors = c'.connectors }) (fill_connector c conn)
      ≡ fill_connector c conn
unfolding fill_connector
fill_connector_twice c c' conn = λ i. record (fill_connector c conn) {
  provider_plugin_id = or_default_twice conn.provider_plugin_id c.provider_plugin_id i;
  oidc_scopes = or_list_twice conn.oidc_scopes default_scopes i;
  oidc_claims_source = claims_source_twice conn.oidc_claims_source i;
  session_redis_prefix =
      or_default_twice conn.session_redis_prefix
        (if conn.default
          then or_default c.session_redis_prefix "auth"
          else or_default c.session_redis_prefix "auth" ++ (":" ++ conn.id))
        i;
  cookie_name =
      or_default_twice conn.cookie_name
        (if conn.default
          then or_default c.cookie_name "__Host-ess_session"
          else or_default c.cookie_name "__Host-ess_session" ++ ("_" ++ conn.id))
        i;
  session_ttl_seconds = or_count_twice conn.session_ttl_seconds c.session_ttl_seconds i;
  session_pkce_ttl_seconds =
      or_count_twice conn.session_pkce_ttl_seconds c.session_pkce_ttl_seconds i;
  session_refresh_lock_ttl_seconds =
      or_count_twice conn.session_refresh_lock_ttl_seconds c.session_refresh_lock_ttl_seconds i;
  claim_mapping = fill_mapping_twice conn.id conn.claim_mapping i;
}

fill_all_twice :
    (c c' : Config) (cs : List ConnectorConfig)
    → fill_all (record c { connectors = c'.connectors }) (fill_all c cs) ≡ fill_all c cs
unfolding fill_all
fill_all_twice c c' [] = refl
fill_all_twice c c' (conn ∷ more) =
    λ i. fill_connector_twice c c' conn i ∷ fill_all_twice c c' more i

relisted :
    (c d : Config) (cs : List ConnectorConfig)
    → listed_connectors d (fill_all c (listed_connectors c cs))
      ≡ fill_all c (listed_connectors c cs)
unfolding fill_all listed_connectors fill_connector legacy_connector
relisted c d [] = refl
relisted c d (conn ∷ []) = refl
relisted c d (a ∷ b ∷ more) = refl

-- Normalize is idempotent: a second call changes nothing.
pub normalize-idempotent : (c : Config) → normalize (normalize c) ≡ normalize c
unfolding normalize
normalize-idempotent c = λ i. record c {
  connectors =
      (ap (fill_all (normalize c)) (relisted c (normalize c) c.connectors)
          ∙ fill_all_twice c (normalize c) (listed_connectors c c.connectors))
        i;
}

-- What the service can rely on after Validate.
pub record IsUsable (c : Config) : Type 0 where
  pub redis : (c.redis_url == "") ≡ false
  pub secret : (c.cookie_signing_secret == "") ≡ false
  pub chosen : (c.cookie_signing_secret == "CHANGE-ME-in-production") ≡ false
  pub base : (c.app_base_url == "") ≡ false
  pub paths : is_empty c.allowed_redirect_paths ≡ false

-- The top-level fields name a provider.
pub record HasProvider (c : Config) : Type 0 where
  pub issuer : (c.oidc_issuer == "") ≡ false
  pub redirect_uri : (c.oidc_redirect_uri == "") ≡ false
  pub client_id : (c.oidc_client_id == "") ≡ false
  pub scopes : is_empty c.oidc_scopes ≡ false

required-IsUsable :
    (lower : String → String) (c : Config)
    → (validate lower c).0 ≡ none
    → IsUsable (validate lower c).1
unfolding validate required_error validate_providers legacy_error
required-IsUsable lower c h = ground arith

legacy-HasProvider :
    (lower : String → String) (c : Config)
    → (validate_providers lower c).0 ≡ none
    → is_empty c.connectors ≡ true
    → HasProvider (validate_providers lower c).1
unfolding validate_providers legacy_error
legacy-HasProvider lower c h e = ground arith

-- The connectors passed their own validation.
pub record AreValid (cs : List ConnectorConfig) : Type 0 where
  pub complete : All IsComplete cs
  pub distinct : AreDistinct cs
  pub one_default : count_defaults cs ≡ 1

connectors-AreValid :
    (lower : String → String) (c : Config)
    → (validate_providers lower c).0 ≡ none
    → is_empty c.connectors ≡ false
    → AreValid ((validate_providers lower c).1).connectors
unfolding validate_providers connectors_error
connectors-AreValid lower c h e =
    let accepted : validate_connectors c.connectors ≡ none = ground arith in
    let (complete, distinct, one) = validate_connectors-IsValid c.connectors accepted in
    rw (e, validate_providers)
      (record { complete = complete; distinct = distinct; one_default = one })

-- Without connectors the top-level fields name a provider, and connectors are valid.
abbrev pub IsProvided : List ConnectorConfig → Config → Type 0
IsProvided asked c =
    ((is_empty asked ≡ true) × HasProvider c) ⊎ ((is_empty asked ≡ false) × AreValid c.connectors)

providers-AreValid :
    (lower : String → String) (c : Config)
    → (validate_providers lower c).0 ≡ none
    → IsProvided c.connectors (validate_providers lower c).1
providers-AreValid lower c h = elim (Bool-cases (is_empty c.connectors)) [
  | inl e ↦ inl (e, legacy-HasProvider lower c h e)
  | inr e ↦ inr (e, connectors-AreValid lower c h e)
]

-- A configuration that Validate accepts has its Redis URL, a cookie secret that is not the
-- placeholder, a base URL and at least one allowed path. If it has no connectors, the top-level
-- fields name a provider with scopes; if it has some, they are complete and distinct and exactly
-- one is the default.
pub validate-IsUsable :
    (lower : String → String) (c : Config)
    → (validate lower c).0 ≡ none
    → IsUsable (validate lower c).1 × IsProvided c.connectors (validate lower c).1
unfolding validate
validate-IsUsable lower c h =
    let shared = required-IsUsable lower c h in
    let settled : Config = record c {
      cookie_same_site = parse_same_site lower c.cookie_same_site_str;
      allowed_redirect_paths = or_list c.allowed_redirect_paths ("/" ∷ []);
    } in
    elim (Option-cases (required_error c)) [
      | inr (e, found) ↦ absurd (cc (rw (found, validate) at h))
      | inl fine ↦ (
        shared,
        rw (fine, validate) (providers-AreValid lower settled (rw (fine, validate) at h)),
      )
    ]
