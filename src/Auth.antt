-- ===== src/Auth.antt =====
-- services/internal/auth: accounts, sessions and first-time provisioning.
pub mod Repository
pub mod Sessions
pub mod OneTime
pub mod Provision
pub mod Tokens
pub mod Service
pub mod Recovery
pub mod OAuth
pub mod Handler
pub mod Callback
mod Tests
