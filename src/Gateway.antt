-- ===== src/Gateway.antt =====
-- services/internal/gateway: tunnel hosts, agent connections, the registry and the handlers.
pub mod Host
pub mod Registry
pub mod Message
pub mod Conn
pub mod Public
pub mod Handshake
pub mod Capture
mod Tests
