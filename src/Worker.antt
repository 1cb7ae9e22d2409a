-- ===== src/Worker.antt =====
-- The sidecar workers (src/voiceobs/worker).
pub mod Poller
pub mod Reconcile
pub mod Consumer
pub mod Judge
mod Tests
