-- ===== src/Http.antt =====
-- The rest of the HTTP surface: the token check of src/auth.rs, `run_sql` of src/handlers.rs and the
-- times of src/convert.rs.
pub mod Auth
pub mod Sql
pub mod Convert
mod Tests
