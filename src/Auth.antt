-- ===== src/Auth.antt =====
-- The auth service: internal/auth/service/service.go and the parts of pkg that it composes. Its
-- children are the world it talks to (Env), its configuration (Service), and its flows.
pub mod Env
pub mod Service
pub mod Settings
pub mod Refresh
pub mod Login
pub mod Logout
pub mod Resolve
pub mod Tickets
pub mod Startup
pub mod Sample
mod Tests
