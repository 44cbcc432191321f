-- ===== src/Database.antt =====
-- The database storage (backend/app/storage/db.py) and its tables (backend/app/db/models.py).
pub mod Enums
pub mod Rows
pub mod Sql
pub mod State
pub mod Storage
pub mod Jobs
pub mod Tables
pub mod Mirrors
pub mod Refines
