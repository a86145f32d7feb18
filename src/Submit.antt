-- ===== src/Submit.antt =====
-- src/submit/: hashing on the CPU, the comparison with a target, and the routing of hits.
pub mod Sha256
pub mod HashTarget
pub mod Router
pub mod Gbt
pub mod Stratum
