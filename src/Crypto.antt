-- ===== src/Crypto.antt =====
-- The standard packages that sign and encode: crypto/hmac with SHA-256 and base64.URLEncoding.
-- They are not in the repository, so they are a parameter; a byte string is a text here.
pub mod Parts
mod Defs
pub mod Sample
pub use Defs.{Crypto, CryptoLaws}
