-- ===== src/Worker.antt =====
-- apps/worker/src: the delivery of the events that the API writes to its outbox.
pub mod Retry
pub mod Outbox
pub mod Runtime
