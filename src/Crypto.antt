-- ===== src/Crypto.antt =====
-- Encryption, signatures and digests: crates/common_utils/src/crypto.rs. A byte is a number below 256. The
-- crates ring, md5 and hex are parameters.
pub mod Nonces
pub mod Aes
pub mod Signatures
