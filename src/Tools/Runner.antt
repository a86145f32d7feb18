-- ===== src/Tools/Runner.antt =====
-- src/tools/stratum_registry_runner.cpp: the parts of `main` that are more than calls of the others.
pub mod Jobs
pub mod Hits
pub mod Replay
pub mod Slots
pub mod Backpressure
