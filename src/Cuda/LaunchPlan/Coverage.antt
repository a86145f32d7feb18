-- ===== src/Cuda/LaunchPlan/Coverage.antt =====
-- `computeLaunchPlan` of src/cuda/launch_plan.h: the grid covers the threads asked for.
use btc_multipool_cache_mine.Base.{
  ℕ, ◌+◌, ◌-◌, ◌*◌, ◌^◌, ◌≤◌, ◌<◌, ◌≡◌, ◌⊎◌, inl, inr, refl, arith, false, ltb, leb, ◌&&◌, ne→==,
}
use btc_multipool_cache_mine.Cuda.LaunchPlan.{
  clamp_threads_per_block, halve_while, threads_for, blocks_for, compute_launch_plan,
}

-- Three rounds are enough: the loop's condition is false where it stops.
halve_while-stops :
    (desired : ℕ)
    → (ltb desired (halve_while 3 desired 256) && leb 64 (halve_while 3 desired 256)) ≡ false
unfolding halve_while
halve_while-stops desired = ground arith

-- The block is 64, 128 or 256 threads: the largest of them that is not above the threads asked for,
-- and 64 below that.
threads_for-cases :
    (desired : ℕ)
    → ((threads_for desired ≡ 256) × (256 ≤ desired))
      ⊎ (((threads_for desired ≡ 128) × (128 ≤ desired) × (desired < 256))
          ⊎ ((threads_for desired ≡ 64) × (desired < 128)))
unfolding threads_for halve_while clamp_threads_per_block
threads_for-cases desired = ground arith

-- The blocks of `tpb` threads that cover `desired` threads, and no block more.
abbrev pub Covers : ℕ → ℕ → ℕ → Type 0
Covers desired blocks tpb = (desired ≤ blocks * tpb) × (blocks * tpb < desired + tpb)

blocks_for-Covers_256 :
    (desired : ℕ)
    → 0 < desired
    → desired ≤ 256 * (2 ^ 32 - 1)
    → Covers desired (blocks_for desired 256) 256
unfolding blocks_for
blocks_for-Covers_256 desired pos hi = ground arith

blocks_for-Covers_128 :
    (desired : ℕ) → 0 < desired → desired < 256 → Covers desired (blocks_for desired 128) 128
unfolding blocks_for
blocks_for-Covers_128 desired pos hi = ground arith

blocks_for-Covers_64 :
    (desired : ℕ) → 0 < desired → desired < 128 → Covers desired (blocks_for desired 64) 64
unfolding blocks_for
blocks_for-Covers_64 desired pos hi = ground arith

blocks_for-threads_for :
    (desired : ℕ)
    → 0 < desired
    → desired ≤ 256 * (2 ^ 32 - 1)
    → Covers desired (blocks_for desired (threads_for desired)) (threads_for desired)
blocks_for-threads_for desired pos hi = elim (threads_for-cases desired) [
  | inl (e, lo) ↦ rw e (blocks_for-Covers_256 desired pos hi)
  | inr (inl (e, lo, up)) ↦ rw e (blocks_for-Covers_128 desired pos up)
  | inr (inr (e, up)) ↦ rw e (blocks_for-Covers_64 desired pos up)
]

-- For at least one job and from 1 to 256 * (2 ^ 32 - 1) threads asked for, the plan's blocks cover
-- the threads with less than one block to spare; the block has from 64 to 256 threads, and the
-- number of jobs is kept.
pub compute_launch_plan-Covers :
    (num_jobs desired : ℕ)
    → 0 < num_jobs
    → 0 < desired
    → desired ≤ 256 * (2 ^ 32 - 1)
    → (Covers desired
        (compute_launch_plan num_jobs desired).blocks_per_job
        (compute_launch_plan num_jobs desired).threads_per_block)
      × ((compute_launch_plan num_jobs desired).num_jobs ≡ num_jobs)
      × (64 ≤ (compute_launch_plan num_jobs desired).threads_per_block)
      × ((compute_launch_plan num_jobs desired).threads_per_block ≤ 256)
unfolding compute_launch_plan
compute_launch_plan-Covers num_jobs desired jobs pos hi =
    let cases = threads_for-cases desired in
    rw (ne→== num_jobs 0 (λ e. absurd (omega arith)), ne→== desired 0 (λ e. absurd (omega arith)))
      (blocks_for-threads_for desired pos hi, refl, ground arith, ground arith)

-- For at least one job and more than 2 ^ 64 - 255 threads asked for in 64 bits, the rounding up
-- wraps around and the plan has one block for a job.
pub compute_launch_plan_wrapped :
    (num_jobs desired : ℕ)
    → 0 < num_jobs
    → 2 ^ 64 - 255 < desired
    → desired < 2 ^ 64
    → (compute_launch_plan num_jobs desired).blocks_per_job ≡ 1
unfolding compute_launch_plan blocks_for
compute_launch_plan_wrapped num_jobs desired jobs big fits = elim (threads_for-cases desired) [
  | inl (e, lo) ↦
      rw
        (
          ne→== num_jobs 0 (λ e. absurd (omega arith)),
          ne→== desired 0 (λ e. absurd (omega arith)),
          e,
        )
        (ground arith)
  | inr (inl (e, lo, up)) ↦ absurd (omega arith)
  | inr (inr (e, up)) ↦ absurd (omega arith)
]
