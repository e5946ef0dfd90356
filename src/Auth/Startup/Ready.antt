-- ===== src/Auth/Startup/Ready.antt =====
-- What the services of New and NewMultiConnector, in internal/auth/service/service.go, can rely on.
use mathlib.Core.Path.{subst}
use accessgate.Base.{
  ℕ, String, ◌≡◌, refl, ◌∙◌, sym, ap, Option, none, some, List, [], ◌∷◌, ◌⊎◌, inl, inr, arith,
  Option-cases,
}
use accessgate.Base.Result.{Result, ok, err}
use accessgate.Auth.Service.{
  Config, ConnectorConfig, ConnectorWiring, Connector, Service, add_connector, add_connectors,
  new_service, conn,
}
use accessgate.Auth.Service.Laws.{new_service-conn}
use accessgate.Auth.Settings.Defaults.{validate}
use accessgate.Auth.Settings.Usable.{IsUsable, IsProvided, validate-IsUsable}
use accessgate.Auth.Startup.{RuntimeStores, single_wiring, started, new, new_multi_connector}

Result-cases : (r : Result Service) → ((e : String) × (r ≡ err e)) ⊎ ((s : Service) × (r ≡ ok s))
Result-cases (ok s) = inr (s, refl)
Result-cases (err e) = inl (e, refl)

ok_injective : (s t : Service) → Path (Result Service) (ok s) (ok t) → s ≡ t
ok_injective s t h = cc

-- A service is built over the configuration that it is given.
add_connector-cfg :
    (s s' : Service) (w : ConnectorWiring) → add_connector s w ≡ ok s' → s'.cfg ≡ s.cfg
unfolding add_connector
add_connector-cfg s s' w h = ground arith

add_connectors-cfg :
    (ws : List ConnectorWiring) (s s' : Service) → add_connectors s ws ≡ ok s' → s'.cfg ≡ s.cfg
unfolding add_connectors
add_connectors-cfg [] s s' h = ap (λ x. x.cfg) (sym (ok_injective s s' h))
add_connectors-cfg (w ∷ ws) s s' h = elim (Result-cases (add_connector s w)) [
  | inl (e, bad) ↦ absurd (cc (rw (bad, add_connectors) at h))
  | inr (t, fine) ↦
      add_connectors-cfg ws t s' (rw (fine, add_connectors) at h) ∙ add_connector-cfg s t w fine
]

-- A service that can serve: its default connector resolves, and its configuration is usable and
-- names a provider.
pub record IsReady (asked : List ConnectorConfig) (s : Service) : Type 0 where
  pub connector : Connector
  pub served : conn s "" ≡ ok connector
  pub usable : IsUsable s.cfg
  pub provided : IsProvided asked s.cfg

started-ok : (r : Result Service) (s : Service) → started r ≡ inr s → r ≡ ok s
started-ok (ok t) s h = cc
started-ok (err e) s h = absurd (cc)

built-IsReady :
    (lower : String → String) (cfg : Config) (w : ConnectorWiring) (ws : List ConnectorWiring)
    (s : Service)
    → (validate lower cfg).0 ≡ none
    → started (new_service (validate lower cfg).1 (w ∷ ws)) ≡ inr s
    → IsReady cfg.connectors s
unfolding new_service
built-IsReady lower cfg w ws s accepted h =
    let built = started-ok _ s h in
    let (c, found) = new_service-conn (validate lower cfg).1 w ws s built in
    let same = sym (
      add_connectors-cfg (w ∷ ws)
        (record { cfg = (validate lower cfg).1; connectors = []; default_id = "" }) s built) in
    let (usable, provided) = validate-IsUsable lower cfg accepted in
    record {
      connector = c;
      served = found;
      usable = subst IsUsable same usable;
      provided = subst (IsProvided cfg.connectors) same provided;
    }

wired-IsReady :
    (lower : String → String) (cfg : Config) (ws : List ConnectorWiring) (s : Service)
    → (validate lower cfg).0 ≡ none
    → new_multi_connector lower cfg ws ≡ inr s
    → IsReady cfg.connectors s
unfolding new_multi_connector
wired-IsReady lower cfg [] s fine h = absurd (cc (rw (fine, new_multi_connector) at h))
wired-IsReady lower cfg (w ∷ ws) s fine h =
    built-IsReady lower cfg w ws s fine (rw (fine, new_multi_connector) at h)

single-IsReady :
    (lower : String → String) (cfg : Config) (stores : RuntimeStores) (provider : Option ℕ)
    (s : Service)
    → (validate lower cfg).0 ≡ none
    → new lower cfg stores provider ≡ inr s
    → IsReady cfg.connectors s
unfolding new
single-IsReady lower cfg stores none s fine h = absurd (cc (rw (fine, new) at h))
single-IsReady lower cfg stores (some p) s fine h =
    built-IsReady lower cfg (single_wiring (validate lower cfg).1 stores p) [] s fine
      (rw (fine, new) at h)

new_validates :
    (lower : String → String) (cfg : Config) (stores : RuntimeStores) (provider : Option ℕ)
    (s : Service)
    → new lower cfg stores provider ≡ inr s
    → (validate lower cfg).0 ≡ none
unfolding new
new_validates lower cfg stores provider s h = elim (Option-cases (validate lower cfg).0) [
  | inr (e, bad) ↦ absurd (cc (rw (bad, new) at h))
  | inl fine ↦ fine
]

new_multi_connector_validates :
    (lower : String → String) (cfg : Config) (ws : List ConnectorWiring) (s : Service)
    → new_multi_connector lower cfg ws ≡ inr s
    → (validate lower cfg).0 ≡ none
unfolding new_multi_connector
new_multi_connector_validates lower cfg ws s h = elim (Option-cases (validate lower cfg).0) [
  | inr (e, bad) ↦ absurd (cc (rw (bad, new_multi_connector) at h))
  | inl fine ↦ fine
]

-- A service that NewMultiConnector or New returns has a default connector that resolves, and a
-- configuration with the required settings and, without connectors, a provider with scopes, or with
-- connectors, valid ones.
pub new-IsReady :
    (lower : String → String) (cfg : Config) (ws : List ConnectorWiring) (stores : RuntimeStores)
    (provider : Option ℕ) (s : Service)
    → (new_multi_connector lower cfg ws ≡ inr s) ⊎ (new lower cfg stores provider ≡ inr s)
    → IsReady cfg.connectors s
new-IsReady lower cfg ws stores provider s (inl h) =
    wired-IsReady lower cfg ws s (new_multi_connector_validates lower cfg ws s h) h
new-IsReady lower cfg ws stores provider s (inr h) =
    single-IsReady lower cfg stores provider s (new_validates lower cfg stores provider s h) h
