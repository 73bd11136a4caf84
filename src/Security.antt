-- ===== src/Security.antt =====
-- services/pkg/security: passwords, opaque tokens and access tokens.
pub mod Base64
pub mod Token
pub mod Scan
pub mod Password
mod Tests
