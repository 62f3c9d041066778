-- ===== src/Forms.antt =====
-- layer3: the parsers of form bodies.
pub mod UrlEncoded
pub mod Multipart
mod Tests
