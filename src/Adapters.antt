-- ===== src/Adapters.antt =====
-- src/adapters/: the sources of work, and the choice between them.
pub mod StratumAdapter
pub mod GbtAdapter
pub mod PoolRouter
pub mod PoolProfiles
pub mod StratumRunner
pub mod GbtRunner
