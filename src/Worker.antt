-- ===== src/Worker.antt =====
-- Package worker and the dummy worker of cmd/close-worker.
pub mod Main
pub mod Dummy
pub mod Examples
