-- ===== src/Migrations.antt =====
-- The checks that the deployment runs on the database's migrations
-- (scripts/validate_production_migrations.py).
pub mod History
pub mod Listing
pub mod Pending
pub mod Sql
mod Tests
