-- ===== src/Crypto/Defs.antt =====
-- The parameter that stands for crypto/hmac and encoding/base64.
use accessgate.Base.{String, ◌≡◌, false, Option, some}
use accessgate.Crypto.Parts.{contains_char}

pub record Crypto : Type 0 where
  -- The HMAC of the second text under the first.
  pub hmac : String → String → String
  pub encode64 : String → String
  pub decode64 : String → Option String

-- What the code relies on: decoding inverts encoding, and "." is not in the alphabet.
pub record CryptoLaws (c : Crypto) : Type 0 where
  pub decode-encode : (s : String) → c.decode64 (c.encode64 s) ≡ some s
  pub no_dot : (s : String) → contains_char b'.' (c.encode64 s) ≡ false
