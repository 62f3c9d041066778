-- ===== src/Sql.antt =====
-- layer2: the SQL client.
pub mod Text
mod Tests
