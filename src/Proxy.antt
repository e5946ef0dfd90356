-- ===== src/Proxy.antt =====
-- The proxy: which route takes a request (Routes), what the request says of itself (Request), who
-- the caller is (Principal), what is decided (Engine), what the upstream is told (Headers and
-- Forward), and how the server puts these together (Server).
pub mod Routes
pub mod Headers
pub mod Principal
pub mod Graphql
pub mod Request
pub mod Engine
pub mod Forward
pub mod Server
pub mod Settings
mod Tests
