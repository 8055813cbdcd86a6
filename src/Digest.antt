-- ===== src/Digest.antt =====
-- What SHA-256 (lib/apiauth/sha256.cpp) and SHA-1 (src/api/websocket.cpp) share: a chaining value,
-- a block that fills up byte by byte, and big-endian words. A digest is given by its compression
-- function and stands behind the same padding.
pub mod Words
pub mod Chain
pub mod Padding
