-- ===== src/Obs.antt =====
-- src/obs/: the counters of the program.
pub mod Metrics
