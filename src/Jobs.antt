-- ===== src/Jobs.antt =====
-- Recurring jobs in the database (app/core/jobs): the table, the registry of handlers, and the
-- worker that claims due jobs under a lease.
pub mod Model
pub mod Registry
pub mod Worker
pub mod System
