-- ===== src/Signal.antt =====
-- The test signals of source/signal.
pub mod Burst
