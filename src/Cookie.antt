-- ===== src/Cookie.antt =====
-- Signed cookie values: pkg/cookie/signed.go. The HTTP side (Set, Clear) is not modelled.
pub mod Laws
mod Tests
use Prim.Native.Char.{Char}
use Prim.Native.String.{◌++◌}
use Prim.Native.String
use accessgate.Base.{String, ◌==◌, Option, none, some, List, [], ◌∷◌, if◌then◌else◌}
use accessgate.Base.Text.{cut}
use accessgate.Crypto.{Crypto}

pub record SignedManager : Type 0 where
  pub primary : String
  pub older : List String

-- `v any`: a session id, or a value of another type.
pub data Payload : Type 0 where
  session_id : String → Payload
  other : Payload

abbrev pub signed_sep : Char
signed_sep = "."

pub new_signed_manager : String → SignedManager
new_signed_manager secret = record { primary = secret; older = [] }

pub new_signed_manager_with_keys : String → List String → SignedManager
new_signed_manager_with_keys primary older = record { primary = primary; older = older }

module _ (c : Crypto) where
  -- signWith, and the two parts joined by signedSep.
  pub sign : String → String → String
  sign secret payload = payload ++ String.◌∷◌ signed_sep (c.encode64 (c.hmac secret payload))

  unfoldable pub encode : SignedManager → Payload → String
  unfolding sign
  encode m (session_id s) = sign m.primary (c.encode64 s)
  encode m other = ""

  -- The test on the primary key and the loop over the older ones; every failure is
  -- ErrInvalidSignature, `none` here.
  unfoldable pub verify_with : List String → String → String → Option String
  verify_with [] payload sig = none
  verify_with (key ∷ keys) payload sig =
      if sig == c.hmac key payload then c.decode64 payload else verify_with keys payload sig

  unfoldable pub decode : SignedManager → String → Option String
  unfolding verify_with
  decode m raw = elim (cut b'.' raw) [
    | none ↦ none
    | some (payload, sig64) ↦ (elim (c.decode64 sig64) [
      | none ↦ none
      | some sig ↦ verify_with (m.primary ∷ m.older) payload sig
    ])
  ]
