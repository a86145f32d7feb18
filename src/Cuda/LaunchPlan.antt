-- ===== src/Cuda/LaunchPlan.antt =====
-- src/cuda/launch_plan.h: the grid of one launch.
-- The loop that halves the block runs on fuel: from 256 it stops within three rounds.
pub mod Coverage
use btc_multipool_cache_mine.Base.{
  ℕ, zero, suc, ◌+◌, ◌-◌, ◌*◌, ◌/◌, ◌^◌, if◌then◌else◌, ltb, leb, ◌==◌, ◌&&◌, ◌||◌, u32, u64, ◌>>>◌,
}

pub record MultiJobLaunchPlan : Type 0 where
  pub blocks_per_job : ℕ
  pub threads_per_block : ℕ
  pub num_jobs : ℕ

unfoldable pub clamp_threads_per_block : ℕ → ℕ
clamp_threads_per_block requested =
    if ltb requested 64 then 64 else (if ltb 1024 requested then 1024 else requested)

unfoldable pub halve_while : ℕ → ℕ → ℕ → ℕ
halve_while zero desired tpb = tpb
halve_while (suc fuel) desired tpb =
    let rest = halve_while fuel desired (tpb >>> 1) in
    if ltb desired tpb && leb 64 tpb then rest else tpb

unfoldable pub threads_for : ℕ → ℕ
threads_for desired = clamp_threads_per_block (halve_while 3 desired 256)

-- The ceiling of the division, in 64-bit arithmetic, kept between 1 and the largest 32-bit number.
unfoldable pub blocks_for : ℕ → ℕ → ℕ
blocks_for desired tpb =
    let blocks = u64 (u64 (desired + tpb) + (2 ^ 64 - 1)) / tpb in
    let positive = (if blocks == 0 then 1 else blocks) in
    u32 (if ltb (2 ^ 32 - 1) positive then 2 ^ 32 - 1 else positive)

unfoldable pub compute_launch_plan : ℕ → ℕ → MultiJobLaunchPlan
compute_launch_plan num_jobs desired =
    if num_jobs == 0 || desired == 0
    then record { blocks_per_job = 0; threads_per_block = 0; num_jobs = num_jobs }
    else record {
      blocks_per_job = blocks_for desired (threads_for desired);
      threads_per_block = threads_for desired;
      num_jobs = num_jobs;
    }
