-- ===== src/Storage.antt =====
-- The process state: the tables of `InMemoryStorage` (backend/app/storage/memory.py) and the
-- secrets that `SetupJobService` keeps in memory; `Action` is a method call over it, and
-- `Tables` holds the storage's methods.
pub mod State
pub mod Action
pub mod Checked
pub mod Tables
pub mod Jobs
