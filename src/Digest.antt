-- ===== src/Digest.antt =====
-- src/crypto/digest: the base class of the digests, and Tiger.
pub mod Hash
pub mod Tiger
pub mod Merkle
mod Tests
