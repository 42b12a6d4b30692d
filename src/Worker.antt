-- ===== src/Worker.antt =====
-- internal/worker: the runners that carry claimed work out.
pub mod Outbox
pub mod Queue
pub mod Processor
pub mod Runner
