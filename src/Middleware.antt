-- ===== src/Middleware.antt =====
-- layer3: the request context and the middleware on it.
pub mod Context
pub mod Cors
pub mod Limits
pub mod Replies
mod Tests
