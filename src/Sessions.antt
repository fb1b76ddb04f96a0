-- ===== src/Sessions.antt =====
-- Refresh tokens: src/dubbing_pipeline/api/auth/refresh_tokens.py over the table `refresh_tokens` of
-- `AuthStore` in src/dubbing_pipeline/api/models.py. The JWT library and SHA-256 are not part of the
-- repository: they are the parameters `Jwt`. A row is found by its `jti`, the primary key.
pub mod Store
pub mod Tokens
pub mod Live
pub mod Rotation
mod Examples
