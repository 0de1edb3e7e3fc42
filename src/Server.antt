-- ===== src/Server.antt =====
-- The HTTP servers (server/http): their life, and the handlers.
pub mod PowerDns
pub mod Request
pub mod Admin
pub mod QueryParser
pub mod Manager
