-- ===== src/Auth/Settings/Valid.antt =====
-- What validateConnectors of internal/auth/config/config.go guarantees.
use accessgate.Base.{
  ℕ, suc, ◌+◌, String, ◌==◌, ◌≡◌, inl, inr, true, false, none, List, [], ◌∷◌, any, All, arith,
  if◌then◌else◌, Option-cases,
}
use accessgate.Auth.Service.{ConnectorConfig}
use accessgate.Auth.Settings.{is_connector_id, connector_error, validate_from, validate_connectors}

pub record IsComplete (c : ConnectorConfig) : Type 0 where
  pub safe : is_connector_id c.id ≡ true
  pub issuer : (c.oidc_issuer == "") ≡ false
  pub redirect_uri : (c.oidc_redirect_uri == "") ≡ false
  pub client_id : (c.oidc_client_id == "") ≡ false

abbrev pub count_defaults : List ConnectorConfig → ℕ
count_defaults [] = 0
count_defaults (c ∷ more) = if c.default then suc (count_defaults more) else count_defaults more

-- No two connectors have the same id.
abbrev pub AreDistinct : List ConnectorConfig → Type 0
AreDistinct [] = Unit
AreDistinct (c ∷ more) = All (λ d. (c.id == d.id) ≡ false) more × AreDistinct more

abbrev IsUnseen : List String → ConnectorConfig → Type 0
IsUnseen seen c = any (λ id. id == c.id) seen ≡ false

accepted :
    (seen : List String) (i : ℕ) (c : ConnectorConfig)
    → connector_error seen i c ≡ none
    → IsComplete c × IsUnseen seen c
unfolding connector_error
accepted seen i c h = ground arith

split-IsUnseen :
    (id : String) (seen : List String) (cs : List ConnectorConfig)
    → All (IsUnseen (id ∷ seen)) cs
    → All (λ d. (id == d.id) ≡ false) cs × All (IsUnseen seen) cs
split-IsUnseen id seen [] h = (tt, tt)
split-IsUnseen id seen (c ∷ cs) (h, hs) =
    let (a, b) = split-IsUnseen id seen cs hs in ((ground arith, a), (ground arith, b))

-- What a run of the loop without an error has seen.
record IsChecked (seen : List String) (defaults : ℕ) (cs : List ConnectorConfig) : Type 0 where
  complete : All IsComplete cs
  unseen : All (IsUnseen seen) cs
  distinct : AreDistinct cs
  one : defaults + count_defaults cs ≡ 1

validate_from-IsChecked :
    (seen : List String) (defaults i : ℕ) (cs : List ConnectorConfig)
    → validate_from seen defaults i cs ≡ none
    → IsChecked seen defaults cs
unfolding validate_from
validate_from-IsChecked seen defaults i [] h = record {
  complete = tt;
  unseen = tt;
  distinct = tt;
  one = ground arith;
}
validate_from-IsChecked seen defaults i (c ∷ cs) h =
    elim (Option-cases (connector_error seen i c)) [
      | inr (e, found) ↦ absurd (cc (rw (found, validate_from) at h))
      | inl fine ↦
          let rest =
            validate_from-IsChecked (c.id ∷ seen) _ (suc i) cs (rw (fine, validate_from) at h) in
          let (complete, fresh) = accepted seen i c fine in
          let (apart, others) = split-IsUnseen c.id seen cs rest.unseen in
          record {
            complete = (complete, rest.complete);
            unseen = (fresh, others);
            distinct = (apart, rest.distinct);
            one = let sum = rest.one in ground arith;
          }
    ]

-- Connectors that are accepted have URL-safe ids, all different, an issuer, a redirect URI and a
-- client id each, and exactly one of them is marked as the default.
pub validate_connectors-IsValid :
    (cs : List ConnectorConfig)
    → validate_connectors cs ≡ none
    → All IsComplete cs × AreDistinct cs × (count_defaults cs ≡ 1)
unfolding validate_connectors
validate_connectors-IsValid cs h =
    let checked = validate_from-IsChecked [] 0 0 cs h in
    let sum = checked.one in (checked.complete, checked.distinct, ground arith)
