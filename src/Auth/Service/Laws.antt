-- ===== src/Auth/Service/Laws.antt =====
-- The connectors of a new service and the identity of a refreshed session, in
-- internal/auth/service/service.go.
use accessgate.Base.{
  String, ◌==◌, eq_iff, ◌≡◌, ◌≢◌, refl, ap, ◌⊎◌, inl, inr, Bool, true, false, not, Option, is_some,
  eq_refl, ℕ, ◌||◌, none, some, List, [], ◌∷◌, arith, Bool-cases, Option-cases, if◌then◌else◌,
}
use mathlib.Core.Path.{subst}
use accessgate.Base.Dict.{Dict, lookup, insert, lookup-insert}
use accessgate.Base.Result.{Result, ok, err}
use accessgate.Claims.{Value, text, entries, text_or_empty, get_claim_string}
use accessgate.Session.{Session}
use accessgate.Auth.Service.{
  Service, Config, Connector, ConnectorWiring, or_default, new_connector, add_connector,
  add_connectors, new_service, conn, Strconv, claim_to_string, authoritative_id, refreshed_id,
  refreshed_kind, apply_refreshed_claims,
}

-- The default id names a connector.
record IsServing (s : Service) : Type 0 where
  named : (s.default_id == "") ≡ false
  found : is_some (lookup s.default_id s.connectors) ≡ true

IsStarted : Service → Type 0
IsStarted s = ((s.default_id == "") ≡ true) ⊎ IsServing s

placed : Service → String → Connector → Bool → Service
placed s id c chosen = record s {
  connectors = insert id c s.connectors;
  default_id = if chosen || s.default_id == "" then id else s.default_id;
}

placed-IsServing :
    (s : Service) (id : String) (c : Connector) (chosen : Bool)
    → (id == "") ≡ false
    → IsStarted s
    → IsServing (placed s id c chosen)
unfolding placed IsStarted
placed-IsServing s id c chosen n i = ground (
  arith,
  lookup-insert id s.default_id c s.connectors,
  lookup-insert id id c s.connectors,
  eq_refl id,
)

or_default-named : (v : String) → (or_default v "default" == "") ≡ false
or_default-named v = elim (Bool-cases (v == "")) [
  | inl e ↦ rw (e, or_default) refl
  | inr e ↦ rw (e, or_default) e
]

-- The service of a success.
abbrev service_of : Service → Result Service → Service
service_of s (ok s') = s'
service_of s (err e) = s

taken :
    (s : Service) (w : ConnectorWiring) (s' : Service)
    → IsStarted s
    → add_connector s w ≡ ok s'
    → IsServing s'
unfolding add_connector placed
taken s w s' i h = by_provider w.provider refl
  where
    by_provider : (p : Option ℕ) → w.provider ≡ p → IsServing s'
    by_provider none e = absurd (cc (rw (e, add_connector) at h))
    by_provider (some p) e = subst IsServing (ap (service_of s) (rw (e, add_connector) at h)) (
        placed-IsServing s (or_default w.config.id "default") (new_connector s.cfg w p)
          w.config.default (or_default-named w.config.id) i)

after_first :
    (w : ConnectorWiring) (ws : List ConnectorWiring) (s s' : Service)
    → IsStarted s
    → ((t : Service) → IsServing t → add_connectors t ws ≡ ok s' → IsServing s')
    → add_connectors s (w ∷ ws) ≡ ok s'
    → IsServing s'
unfolding add_connectors
after_first w ws s s' i more h = by_result (add_connector s w) refl
  where
    by_result : (r : Result Service) → add_connector s w ≡ r → IsServing s'
    by_result (err x) e = absurd (cc (rw (e, add_connectors) at h))
    by_result (ok t) e = more t (taken s w t i e) (rw (e, add_connectors) at h)

added :
    (ws : List ConnectorWiring) (s s' : Service)
    → IsServing s
    → add_connectors s ws ≡ ok s'
    → IsServing s'
unfolding add_connectors IsStarted
added [] s s' i h = subst IsServing (ap (service_of s) h) i
added (w ∷ ws) s s' i h = after_first w ws s s' (inr i) (λ t. added ws t s') h

served : (s : Service) → IsServing s → (c : Connector) × (conn s "" ≡ ok c)
unfolding conn
served s i = elim (Option-cases (lookup s.default_id s.connectors)) [
  | inl e ↦ absurd (cc (rw e at i.found))
  | inr (c, e) ↦ (c, rw (e, conn) refl)
]

-- A service that is built from at least one connector has a default connector: the empty
-- connector id resolves, whichever of the connectors is marked as the default, if any.
pub new_service-conn :
    (cfg : Config) (w : ConnectorWiring) (ws : List ConnectorWiring) (s : Service)
    → new_service cfg (w ∷ ws) ≡ ok s
    → (c : Connector) × (conn s "" ≡ ok c)
unfolding new_service IsStarted
new_service-conn cfg w ws s h = served s (
    after_first w ws (record { cfg = cfg; connectors = []; default_id = "" }) s (inl refl)
      (λ t. added ws t s) h)

unequal : (a b : String) → a ≢ b → (a == b) ≡ false
unequal a b d = elim (Bool-cases (a == b)) [ inl e ↦ absurd (d ((eq_iff a b).0 e)) | inr e ↦ e ]

-- The claims of a refresh, given the id and the kind.
identified : String → String → Dict Value → Dict Value
identified id kind m =
    let named = if not (id == "") then insert "sub" (text id) m else m in
    if not (kind == "") then insert "authoritative_id_kind" (text kind) named else named

identified-sub :
    (id kind : String) (m : Dict Value)
    → (id == "") ≡ false
    → lookup "sub" (identified id kind m) ≡ some (text id)
unfolding identified
identified-sub id kind m n = elim (Bool-cases (kind == "")) [
  | inl e ↦ rw (n, e) (simp lookup-insert)
  | inr e ↦ rw (n, e) (simp lookup-insert)
]

module _ (strconv : Strconv) (c : Connector) (sess : Session) (new_claims : Dict Value) where
  id-stays :
      c.cfg.claim_mapping.authoritative_id_claim ≢ ""
      → c.cfg.claim_mapping.authoritative_id_claim ≢ "sub"
      → claim_to_string strconv (lookup c.cfg.claim_mapping.authoritative_id_claim new_claims) ≡ ""
      → get_claim_string sess.claims "sub" ≢ ""
      → refreshed_id strconv c sess new_claims ≡ get_claim_string sess.claims "sub"
  unfolding refreshed_id authoritative_id entries
  id-stays k k' m p = rw (unequal _ "" k, unequal _ "sub" k', m, unequal _ "" p) refl

  -- Where a connector takes the id from another claim than "sub", a refreshed token that does not
  -- carry this claim leaves the session's established id, its "sub", as it was.
  pub apply_refreshed_claims-sub :
      c.cfg.claim_mapping.authoritative_id_claim ≢ ""
      → c.cfg.claim_mapping.authoritative_id_claim ≢ "sub"
      → claim_to_string strconv (lookup c.cfg.claim_mapping.authoritative_id_claim new_claims) ≡ ""
      → get_claim_string sess.claims "sub" ≢ ""
      → get_claim_string (apply_refreshed_claims strconv c sess new_claims).claims "sub"
        ≡ get_claim_string sess.claims "sub"
  unfolding apply_refreshed_claims identified get_claim_string entries text_or_empty
  apply_refreshed_claims-sub k k' m p =
      let e = id-stays k k' m p in
      let n = unequal _ "" p in
      rw
        (identified-sub (refreshed_id strconv c sess new_claims) (refreshed_kind strconv c sess)
          new_claims (rw e n))
        e
