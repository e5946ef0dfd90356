-- ===== src/Auth/Tests.antt =====
-- Runs of internal/auth/service/service.go in the sample world, and the theorems at them.
use accessgate.Base.{◌⊎◌, inl, inr, All, ◌≡◌, ◌≢◌, refl, true, false, none, some, [], ◌∷◌}
use accessgate.Base.Int.{pos}
use accessgate.Base.Text.{cut, trim_slash, has_prefix}
use accessgate.Base.Dict.{lookup}
use accessgate.Base.Result.{ok, err}
use accessgate.Crypto.Sample.{sample_crypto}
use accessgate.Handoff.{Ticket, verify}
use accessgate.Auth.Env.{lock_obtained, logout_completed, ◌>>=◌}
use accessgate.Claims.{Value, text, get_claim_string}
use accessgate.Base.Dict.{Dict, insert}
use accessgate.Auth.Service.{
  Service, Config, Connector, ConnectorConfig, ConnectorWiring, new_connector, conn, new_service,
  claim_to_string, apply_refreshed_claims,
}
use accessgate.Auth.Service.Laws.{new_service-conn, apply_refreshed_claims-sub}
use accessgate.Auth.Settings.{is_connector_id, duplicate_id, validate_connectors, connector_by_id}
use accessgate.Auth.Settings.Valid.{
  IsComplete, AreDistinct, count_defaults, validate_connectors-IsValid,
}
use accessgate.Auth.Settings.Defaults.{normalize, validate}
use accessgate.Auth.Settings.Usable.{IsUsable, IsProvided, normalize-idempotent, validate-IsUsable}
use accessgate.Auth.Sample.{config, due_session, web, service, deps, issuer, ticket_json}
use accessgate.Auth.Refresh.{ensure_fresh, refresh_locked}
use accessgate.Auth.Refresh.Lock.{IsOutside, guarded, ensure_fresh-IsOutside}
use accessgate.Auth.Refresh.Fresh.{
  IsFresh, spends_fresh, ensure_fresh-IsFresh, refresh_locked-stale,
}
use accessgate.Auth.Login.{LoginEndRequest, login_end}
use accessgate.Auth.Login.Order.{IsInOrder, in_order, login_end-IsInOrder}
use accessgate.Auth.Startup.{StartError, RuntimeStores, new}
use accessgate.Auth.Startup.Ready.{IsReady, new-IsReady}
use accessgate.Auth.Logout.{LogoutRequest, origin_admitted, logout}
use accessgate.Auth.Logout.Origin.{IsForeign, logout-refuses, logout-admits_referer}
use accessgate.Auth.Tickets.{redeem_ticket, accept, hand_over, redeem_handoff}
use accessgate.Auth.Tickets.Grant.{IsGranted, redeem_handoff-IsGranted}

web_found : conn service "web" ≡ ok web
unfolding conn lookup
web_found = refl

start_IsOutside : IsOutside deps service web "s1" []
unfolding guarded
start_IsOutside = record { guards = refl; free = refl }

ensure_fresh-IsOutside_example :
    IsOutside deps service web "s1" (ensure_fresh deps service web "s1" []).1
ensure_fresh-IsOutside_example = ensure_fresh-IsOutside deps service web "s1" [] start_IsOutside

start_IsFresh : IsFresh deps service web "s1" []
unfolding spends_fresh
start_IsFresh = record { fresh = refl }

ensure_fresh-IsFresh_example :
    IsFresh deps service web "s1" (ensure_fresh deps service web "s1" []).1
    × (guarded web.refresh_lock "s1" (ensure_fresh deps service web "s1" []).1 ≡ true)
ensure_fresh-IsFresh_example =
    ensure_fresh-IsFresh deps service web "s1" [] start_IsFresh start_IsOutside

refresh_locked-stale_example :
    spends_fresh 2 4 "s1"
      (refresh_locked deps service web "s1" due_session true
        (lock_obtained 4 "s1" (pos 10) (ok true) ∷ [])).1
    ≡ false
refresh_locked-stale_example = refresh_locked-stale deps service web "s1" due_session (pos 10) []

abbrev callback : LoginEndRequest
callback = record { code = "code"; state = "st"; error = ""; host = ""; connector = "web" }

start_IsInOrder : IsInOrder deps web callback []
unfolding in_order
start_IsInOrder = record { ordered = refl }

login_end-IsInOrder_example : IsInOrder deps web callback (login_end deps service callback []).1
login_end-IsInOrder_example =
    login_end-IsInOrder deps web callback service [] web_found start_IsInOrder

abbrev foreign : LogoutRequest
foreign = record {
  session_cookie = "signed:s1";
  origin = "https://evil.example.com";
  referer = "https://evil.example.com/page";
  redirect_to = "";
  connector = "web";
}

-- The service with an allowed origin.
abbrev open_service : Service
open_service = record service {
  cfg = record config { allowed_redirect_origins = "https://partner.example.com" ∷ [] };
}

open_found : conn open_service "web" ≡ ok web
unfolding conn lookup
open_found = refl

foreign_IsForeign : IsForeign open_service foreign
unfolding trim_slash has_prefix
foreign_IsForeign = record {
  named = λ e. cc;
  away = λ e. cc;
  others = (record { origin = λ e. cc; referer = λ e. cc; page = refl }, tt);
}

logout-refuses_example :
    logout deps open_service foreign [] ≡ (err "csrf: origin not allowed", logout_completed ∷ [])
unfolding trim_slash
logout-refuses_example =
    logout-refuses deps open_service web foreign [] open_found foreign_IsForeign

abbrev hidden : LogoutRequest
hidden = record foreign { origin = "" }

logout-admits_referer_example : (logout deps service hidden []).0 ≢ err "csrf: origin not allowed"
logout-admits_referer_example = logout-admits_referer deps service web hidden [] web_found refl

hidden_admitted : origin_admitted service hidden ≡ true
unfolding origin_admitted trim_slash has_prefix
hidden_admitted = refl

handed_over :
    (redeem_handoff deps sample_crypto ticket_json service (some issuer) "web" "j1.key:j1" []).0
    ≡ ok ("signed:s1", "web")
unfolding redeem_handoff redeem_ticket accept hand_over verify sample_crypto cut ◌>>=◌ conn lookup
handed_over = refl

redeem_handoff-IsGranted_example :
    (tk : Ticket) × IsGranted deps sample_crypto ticket_json service issuer "web" "j1.key:j1"
      "signed:s1" "web" []
      (redeem_handoff deps sample_crypto ticket_json service (some issuer) "web" "j1.key:j1" []).1
      tk
redeem_handoff-IsGranted_example =
    redeem_handoff-IsGranted deps sample_crypto ticket_json service issuer "web" "j1.key:j1"
      "signed:s1" "web" [] handed_over

abbrev wiring : ConnectorWiring
wiring = record {
  config = web.cfg;
  provider = some 1;
  sessions = 2;
  pkce = 3;
  refresh_lock = 4;
  finder = none;
}

abbrev other : ConnectorWiring
other = record wiring { config = record web.cfg { id = ""; default = false } }

built_service : Service
unfolding new_connector
built_service = record {
  cfg = service.cfg;
  connectors =
      ("default", new_connector service.cfg other 1)
      ∷ ("web", new_connector service.cfg wiring 1)
      ∷ [];
  default_id = "web";
}

built : new_service service.cfg (other ∷ wiring ∷ []) ≡ ok built_service
unfolding new_service built_service insert
built = refl

new_service-conn_example : (c : Connector) × (conn built_service "" ≡ ok c)
new_service-conn_example = new_service-conn service.cfg other (wiring ∷ []) built_service built

abbrev telegram : Connector
telegram = record web {
  cfg = record web.cfg {
    claim_mapping = record {
      authoritative_id_claim = "tg_id";
      id_kind = "";
      email_claim = "";
      name_claim = "";
      roles_claim = "";
    };
  };
}

abbrev bare_claims : Dict Value
bare_claims = ("sub", text "idp-7") ∷ []

bare : claim_to_string deps.strconv (lookup "tg_id" bare_claims) ≡ ""
unfolding claim_to_string lookup
bare = refl

apply_refreshed_claims-sub_example :
    get_claim_string
      (apply_refreshed_claims deps.strconv telegram due_session bare_claims).claims
      "sub"
    ≡ get_claim_string due_session.claims "sub"
unfolding get_claim_string lookup
apply_refreshed_claims-sub_example =
    apply_refreshed_claims-sub deps.strconv telegram due_session bare_claims (λ e. cc) (λ e. cc)
      bare (λ e. cc)

abbrev second : ConnectorConfig
second = record web.cfg { id = "tg_2"; default = false }

accepted : validate_connectors (web.cfg ∷ second ∷ []) ≡ none
unfolding validate_connectors is_connector_id
accepted = refl

checks :
    (validate_connectors (web.cfg ∷ web.cfg ∷ []) ≡ some (duplicate_id "web"))
    × (connector_by_id (second ∷ web.cfg ∷ []) "" ≡ some web.cfg)
    × (connector_by_id (second ∷ web.cfg ∷ []) "unknown" ≡ some web.cfg)
unfolding validate_connectors connector_by_id is_connector_id
checks = (refl, refl, refl)

validate_connectors-IsValid_example :
    All IsComplete (web.cfg ∷ second ∷ [])
    × AreDistinct (web.cfg ∷ second ∷ [])
    × (count_defaults (web.cfg ∷ second ∷ []) ≡ 1)
validate_connectors-IsValid_example = validate_connectors-IsValid (web.cfg ∷ second ∷ []) accepted

-- The configuration before Normalize: no connectors but the top-level fields.
abbrev legacy_config : Config
legacy_config = record config {
  oidc_issuer = "https://idp.example.com";
  oidc_redirect_uri = "https://app.example.com/callback";
  oidc_client_id = "client";
  connectors = [];
}

normalize-idempotent_example : normalize (normalize legacy_config) ≡ normalize legacy_config
normalize-idempotent_example = normalize-idempotent legacy_config

legacy_accepted : (validate (λ s. s) legacy_config).0 ≡ none
unfolding validate
legacy_accepted = refl

validate-IsUsable_example :
    IsUsable (validate (λ s. s) legacy_config).1
    × IsProvided legacy_config.connectors (validate (λ s. s) legacy_config).1
validate-IsUsable_example = validate-IsUsable (λ s. s) legacy_config legacy_accepted

-- The stores and the wiring of the one connector.
abbrev stores : RuntimeStores
stores = record { sessions = 2; pkce = 3; refresh_lock = 4 }

abbrev service_of_start : StartError ⊎ Service → Service
service_of_start (inl e) = service
service_of_start (inr s) = s

abbrev started_service : Service
started_service = service_of_start (new (λ s. s) legacy_config stores (some 1))

single_started : new (λ s. s) legacy_config stores (some 1) ≡ inr started_service
unfolding new validate new_service
single_started = refl

new-IsReady_example : IsReady legacy_config.connectors started_service
new-IsReady_example =
    new-IsReady (λ s. s) legacy_config [] stores (some 1) started_service (inr single_started)
