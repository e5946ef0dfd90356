-- ===== src/Session.antt =====
-- Sessions and their expiry: pkg/session/session.go and pkce.go. Times are Unix seconds.
pub mod Layout
pub mod Apart
use accessgate.Base.{String, Bool, Option}
use accessgate.Base.Int.{ℤ, leb_ℤ, wrap64, ◌-ℤ◌}
use accessgate.Claims.{Claims}

pub record TenantContext : Type 0 where
  pub tenant_id : String
  pub tenant_slug : String
  pub status : String
  pub locale : String
  pub timezone : String

pub record Session : Type 0 where
  pub id : String
  pub access_token : String
  pub refresh_token : String
  pub id_token : String
  pub expires_at : ℤ
  pub claims : Claims
  pub tenant_context : Option TenantContext

pub record PkceState : Type 0 where
  pub state : String
  pub code_verifier : String
  pub code_challenge : String
  pub nonce : String
  pub redirect_to : String

-- The access token is past its expiry.
unfoldable pub is_expired : Session → ℤ → Bool
is_expired s now = leb_ℤ s.expires_at now

-- It expires within the given seconds; the subtraction is on int64.
unfoldable pub needs_refresh : Session → ℤ → ℤ → Bool
needs_refresh s now early = leb_ℤ (wrap64 (s.expires_at -ℤ early)) now
