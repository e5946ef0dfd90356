-- ===== src/Auth/Settings.antt =====
-- The connectors of the configuration: validateConnectors, ConnectorByID, DefaultConnector and
-- KeyLayout of internal/auth/config/config.go. An error is a value without its text.
pub mod Defaults
pub mod Valid
pub mod Usable
use Prim.Native.Char.{Char, code}
use Prim.Native.String
use accessgate.Base.{
  ℕ, suc, String, ◌==◌, Bool, true, false, not, ◌&&◌, ◌||◌, Option, none, some, List, [], ◌∷◌, any,
  leb, eqb, if◌then◌else◌,
}
use accessgate.Base.Text.{is}
use accessgate.Auth.Service.{ConnectorConfig}

pub data ConfigError : Type 0 where
  missing_id default_count : ℕ → ConfigError
  malformed_id duplicate_id : String → ConfigError
  missing_issuer missing_redirect_uri missing_client_id : String → ConfigError

abbrev is_id_char : Char → Bool
is_id_char c =
    (leb b'A' (code c) && leb (code c) b'Z')
    || (leb b'a' (code c) && leb (code c) b'z')
    || (leb b'0' (code c) && leb (code c) b'9')
    || is b'_' c
    || is b'-' c

unfoldable pub all_id_chars : String → Bool
all_id_chars String.[] = true
all_id_chars (String.◌∷◌ c s) = is_id_char c && all_id_chars s

-- connectorIDRe
unfoldable pub is_connector_id : String → Bool
unfolding all_id_chars
is_connector_id s = not (s == "") && all_id_chars s

-- The checks of one connector, the `i`th, behind those with the ids `seen`.
unfoldable pub connector_error : List String → ℕ → ConnectorConfig → Option ConfigError
connector_error seen i conn =
    if conn.id == ""
    then some (missing_id i)
    else if not (is_connector_id conn.id)
    then some (malformed_id conn.id)
    else if any (λ id. id == conn.id) seen
    then some (duplicate_id conn.id)
    else if conn.oidc_issuer == ""
    then some (missing_issuer conn.id)
    else if conn.oidc_redirect_uri == ""
    then some (missing_redirect_uri conn.id)
    else if conn.oidc_client_id == ""
    then some (missing_client_id conn.id)
    else none

-- The loop and the test behind it.
unfoldable pub validate_from : List String → ℕ → ℕ → List ConnectorConfig → Option ConfigError
unfolding connector_error
validate_from seen defaults i [] = if eqb defaults 1 then none else some (default_count defaults)
validate_from seen defaults i (conn ∷ more) =
    let rest =
      validate_from (conn.id ∷ seen) (if conn.default then suc defaults else defaults) (suc i)
        more in
    elim (connector_error seen i conn) [ none ↦ rest | some e ↦ some e ]

unfoldable pub validate_connectors : List ConnectorConfig → Option ConfigError
unfolding validate_from
validate_connectors conns = validate_from [] 0 0 conns

unfoldable pub marked_default : List ConnectorConfig → Option ConnectorConfig
marked_default [] = none
marked_default (c ∷ more) = let rest = marked_default more in if c.default then some c else rest

unfoldable pub default_connector : List ConnectorConfig → Option ConnectorConfig
unfolding marked_default
default_connector [] = none
default_connector (c ∷ more) = elim (marked_default (c ∷ more)) [ some d ↦ some d | none ↦ some c ]

unfoldable pub named_connector : String → List ConnectorConfig → Option ConnectorConfig
named_connector id [] = none
named_connector id (c ∷ more) =
    let rest = named_connector id more in if c.id == id then some c else rest

unfoldable pub connector_by_id : List ConnectorConfig → String → Option ConnectorConfig
unfolding default_connector named_connector
connector_by_id conns id =
    if id == ""
    then default_connector conns
    else elim (named_connector id conns) [ some c ↦ some c | none ↦ default_connector conns ]
