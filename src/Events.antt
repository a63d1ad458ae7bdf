-- ===== src/Events.antt =====
-- The transactional outbox (app/core/events): the table of events, the bus that writes to it, the
-- dispatcher that runs handlers, and the worker that consumes events.
pub mod Outbox
pub mod Dispatcher
pub mod Worker
