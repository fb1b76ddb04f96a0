-- ===== src/Crypto.antt =====
-- Encryption at rest, src/dubbing_pipeline/security/crypto.py: the chunked container that
-- `encrypt_file` writes and `decrypt_file` reads. AES-GCM under the key in use comes from a package,
-- and is a parameter; so are the random nonces, one for each chunk. A file is the list of its bytes.
pub mod Words
pub mod Container
pub mod Format
pub mod Reading
pub mod Writing
pub mod Fuel
pub mod Files
pub mod Cutting
pub mod Context
pub mod Examples
