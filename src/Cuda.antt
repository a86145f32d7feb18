-- ===== src/Cuda.antt =====
-- src/cuda/: the host's queues and plans, and the device code as functions of what it reads.
pub mod HitRing
pub mod LaunchPlan
pub mod AutoTune
pub mod Sha256d
pub mod Engine
pub mod DeviceRing
pub mod Jobs
