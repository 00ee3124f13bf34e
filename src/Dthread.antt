-- ===== src/Dthread.antt =====
-- The thread library (dthread/).
pub mod MutexRw
