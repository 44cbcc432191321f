-- ===== src/Domain.antt =====
-- The domain model (backend/app/domain/models.py): the enumerations and JSON values here, the
-- records in `Entities`. Identifiers (uuid4 texts) and digests are only compared, so they are
-- natural numbers; a datetime is the number of its microseconds, and a timedelta too.
pub mod Status
pub mod Json
pub mod Entities
