-- ===== src/Cuda/Engine/Mined.antt =====
-- src/cuda/engine.cu: the hits of a launch for a job whose midstate was left zero.
use btc_multipool_cache_mine.Base.{
  ℕ, ◌+◌, ◌*◌, ◌^◌, ◌<◌, ◌≡◌, ap₂, ◌∙◌, List, [], ◌∷◌, false, if◌then◌else◌, length,
}
use btc_multipool_cache_mine.Submit.Sha256.{sha256}
use btc_multipool_cache_mine.Submit.HashTarget.{leq_bytes}
use btc_multipool_cache_mine.Cuda.HitRing.{HitRecord}
use btc_multipool_cache_mine.Cuda.Engine.{
  DeviceJob, header80, used_midstate, batch_digest, plain_digest, tested, batch_hit, tail_hit,
  launched, launch_mine_with_plan_batch,
}
use btc_multipool_cache_mine.Cuda.Engine.Digest.{plain_digest-sha256}
use btc_multipool_cache_mine.Cuda.Engine.Nonces.{consecutive, gather, launched-gather}

-- The hit of a nonce by the double SHA-256 of its header.
abbrev pub hit_at : DeviceJob → ℕ → List HitRecord
hit_at job nonce =
    if leq_bytes (sha256 (sha256 (header80 job nonce))) job.share_target_be
    then record { work_id = job.work_id; nonce = nonce } ∷ []
    else []

module _ (job : DeviceJob) (zeros : used_midstate job.midstate_le ≡ false)
    (p : length job.prevhash_le ≡ 8) (m : length job.merkle_root_le ≡ 8) where
  tail_hit-hit_at : (nonce : ℕ) → tail_hit job nonce ≡ hit_at job nonce
  unfolding tail_hit tested
  tail_hit-hit_at nonce = rw (plain_digest-sha256 job nonce p m)

  batch_hit-hit_at : (nonce : ℕ) → batch_hit job nonce ≡ hit_at job nonce
  unfolding batch_hit batch_digest plain_digest tail_hit
  batch_hit-hit_at nonce = rw zeros (tail_hit-hit_at nonce)

  -- For a job whose midstate words are all zero, a launch with 1 to 2 ^ 32 - 9 nonces for a thread
  -- finds, for each job row, the hits of exactly the next blocks * threads * nonces nonces from
  -- the row's first one, in order and modulo 2 ^ 32, whichever of the four kernels is chosen; a
  -- nonce is a hit where the double SHA-256 of its header, byte by byte, is at most the job's
  -- target.
  pub launch_mine_with_plan_batch-hit_at :
      (nonce_base j blocks threads n : ℕ)
      → 0 < n
      → n + 8 < 2 ^ 32
      → launch_mine_with_plan_batch job nonce_base j blocks threads n
        ≡ gather (hit_at job) (consecutive (nonce_base + j) (blocks * threads * n))
  unfolding launch_mine_with_plan_batch
  launch_mine_with_plan_batch-hit_at nonce_base j blocks threads n pos fits =
      ap₂ (λ f g. launched f g nonce_base j blocks threads n) (λ i x. batch_hit-hit_at x i)
        (λ i x. tail_hit-hit_at x i)
      ∙ launched-gather (hit_at job) nonce_base j blocks threads n pos fits
