-- ===== src/Http.antt =====
-- layer2: the HTTP server, and the parser of HTTP messages.
pub mod Target
pub mod Server
pub mod Parser
pub mod Client
mod Tests
