-- ===== src/ApiAuth.antt =====
-- lib/apiauth: request signing.
pub mod Hex
pub mod AuthHeader
pub mod Sha256
pub mod Hmac
pub mod RequestSig
