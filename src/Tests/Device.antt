-- ===== src/Tests/Device.antt =====
-- The kernels and the ring of hits on the device.
use btc_multipool_cache_mine.Base.{
  inr, ℕ, ◌≡◌, refl, List, [], ◌∷◌, ◌++◌, true, false, arith, replicate, length-replicate, ◌+◌,
  AreWords,
}
use btc_multipool_cache_mine.Base.Checked.{ok, out_of_bounds, ◌>>=◌}
use btc_multipool_cache_mine.Submit.Sha256.{sha256}
use btc_multipool_cache_mine.Normalize.Endian.{le_u32_words_to_be32_bytes}
use btc_multipool_cache_mine.Submit.Sha256.Transform
use btc_multipool_cache_mine.Normalize.Midstate.{sha256_midstate_64}
use btc_multipool_cache_mine.Cuda.HitRing.{HitRecord}
use btc_multipool_cache_mine.Cuda.Sha256d.{sha256d_80_be}
use btc_multipool_cache_mine.Cuda.Sha256d.Host.{sha256d_80_be-sha256}
use btc_multipool_cache_mine.Cuda.Engine.{
  DeviceJob, batch_digest, used_midstate, ntime_of, raised, lowered,
}
use btc_multipool_cache_mine.Cuda.Engine.Digest.{last_words, batch_digest-sha256}
use btc_multipool_cache_mine.Cuda.Jobs.{DeviceJobs, upload_device_jobs, launch_all}
use btc_multipool_cache_mine.Cuda.Jobs.Uploaded.{IsPlain, mined, launch_all-mined}
use btc_multipool_cache_mine.Cuda.DeviceRing.{
  DeviceRing, init_device_hit_buffer, drain_device_hits, run_block, run_blocks,
}
use btc_multipool_cache_mine.Cuda.HitRing.Cells.{read}
use btc_multipool_cache_mine.Cuda.DeviceRing.Holds.{Holds}
use btc_multipool_cache_mine.Cuda.DeviceRing.Spans.{Spans, drain_device_hits-Spans}
use btc_multipool_cache_mine.Cuda.DeviceRing.Blocks.{Ran, run_block-Ran}
use btc_multipool_cache_mine.Cuda.DeviceRing.Launches.{run_blocks-drained}
use btc_multipool_cache_mine.Cuda.DeviceRing.Overflow.{run_block_overflow}

sha256d_80_be-sha256_example : sha256d_80_be (replicate 80 3) ≡ sha256 (sha256 (replicate 80 3))
sha256d_80_be-sha256_example = sha256d_80_be-sha256 (replicate 80 3) refl

abbrev pub job : List ℕ → DeviceJob
job midstate = record {
  version = 0x20000000;
  ntime = 7;
  nbits = 0x1d00ffff;
  vmask = 0;
  ntime_min = 0;
  ntime_max = 0;
  extranonce2_size = 4;
  work_id = 1;
  prevhash_le = replicate 8 5;
  merkle_root_le = replicate 8 6;
  share_target_le = replicate 8 0x00ffffff;
  block_target_le = replicate 8 0;
  midstate_le = midstate;
  share_target_be = replicate 32 0x0f;
}

abbrev first64 : List ℕ
first64 = replicate 64 9

abbrev primed : DeviceJob
primed = job (sha256_midstate_64 first64)

primed_used : used_midstate primed.midstate_le ≡ true
unfolding used_midstate sha256_midstate_64 Transform.transform
primed_used = refl

primed_words : AreWords (last_words primed 4)
unfolding ntime_of raised lowered
primed_words = (omega arith, (omega arith, (omega arith, (omega arith, tt))))

batch_digest-sha256_example :
    batch_digest primed 4
    ≡ sha256 (sha256 (first64 ++ le_u32_words_to_be32_bytes (last_words primed 4)))
batch_digest-sha256_example =
    batch_digest-sha256 primed 4 first64 refl refl primed_used primed_words

zeros_unused : used_midstate (replicate 8 0) ≡ false
unfolding used_midstate
zeros_unused = refl

abbrev zeroed : DeviceJob
zeroed = job (replicate 8 0)

zeroed-IsPlain : IsPlain zeroed
zeroed-IsPlain = record { zeros = zeros_unused; prevhash = refl; root = refl }

abbrev no_jobs : DeviceJobs
no_jobs = record {
  allocated = false;
  jobs = [];
  jobs_const = [];
  jobs_const_size = 0;
  num_jobs = 0;
}

abbrev two_jobs : List DeviceJob
two_jobs = zeroed ∷ zeroed ∷ []

launch_all-mined_example :
    launch_all (upload_device_jobs two_jobs no_jobs).1 2 1 64 10 3
    ≡ ok (true, mined 10 64 3 0 two_jobs)
launch_all-mined_example =
    launch_all-mined two_jobs no_jobs 1 64 10 3 (omega arith) (zeroed-IsPlain, (zeroed-IsPlain, tt))
      (omega arith) (omega arith) (omega arith) (omega arith)

abbrev hit : ℕ → HitRecord
hit n = record { work_id = n; nonce = n + 1 }

abbrev fresh : DeviceRing
fresh = record {
  allocated = true;
  host_cap = 4;
  drain_offset = 0;
  cells = replicate 4 (hit 0);
  cap = 4;
  write_idx = 0;
  flushes = 0;
}

fresh-Holds : Holds [] fresh
unfolding read
fresh-Holds = record {
  allocated = refl;
  some_cells = omega arith;
  same_cap = refl;
  cells = refl;
  fits = omega arith;
  written = refl;
  no_wrap = omega arith;
  contents = refl;
}

run_block-Ran_example : Ran (replicate 64 (hit 9)) (hit 1 ∷ hit 2 ∷ []) [] fresh
run_block-Ran_example =
    run_block-Ran (replicate 64 (hit 9)) (hit 1 ∷ hit 2 ∷ []) [] fresh fresh-Holds refl
      (omega arith) (omega arith) (omega arith)

-- The write index has wrapped around: one hit is in the last cell, two are in the first ones.
abbrev around : DeviceRing
around = record {
  allocated = true;
  host_cap = 4;
  drain_offset = 0xffffffff;
  cells = hit 2 ∷ hit 3 ∷ hit 0 ∷ hit 1 ∷ [];
  cap = 4;
  write_idx = 2;
  flushes = 0;
}

around-Spans : Spans (hit 1 ∷ hit 2 ∷ hit 3 ∷ []) around
unfolding read
around-Spans = record {
  allocated = refl;
  some_cells = omega arith;
  same_cap = refl;
  cells = refl;
  fits = omega arith;
  few = omega arith;
  offset_lt = omega arith;
  written = refl;
  aligned = inr refl;
  contents = refl;
}

drain_device_hits-Spans_example :
    (drain_device_hits 2 around ≡ ok (true, hit 1 ∷ hit 2 ∷ [], record around { drain_offset = 1 }))
    × Spans (hit 3 ∷ []) (record around { drain_offset = 1 })
drain_device_hits-Spans_example =
    drain_device_hits-Spans 2 (hit 1 ∷ hit 2 ∷ hit 3 ∷ []) around around-Spans

run_block_overflow_example :
    run_block (replicate 64 (hit 9)) (replicate 65 (hit 1)) fresh ≡ out_of_bounds
run_block_overflow_example =
    run_block_overflow (replicate 64 (hit 9)) (replicate 65 (hit 1)) fresh refl (omega arith)
      (omega arith) (omega arith)

run_blocks-drained_example :
    (after : DeviceRing) × ((run_blocks
          (replicate 64 (hit 9))
          ((hit 1 ∷ hit 2 ∷ []) ∷ [] ∷ (hit 3 ∷ []) ∷ [])
          (init_device_hit_buffer (λ n. replicate n (hit 0)) 4 fresh)
        >>= drain_device_hits 64)
      ≡ ok (true, hit 1 ∷ hit 2 ∷ hit 3 ∷ [], after))
    × Holds [] after
run_blocks-drained_example =
    run_blocks-drained (λ n. replicate n (hit 0)) (λ n. length-replicate n (hit 0))
      (replicate 64 (hit 9)) ((hit 1 ∷ hit 2 ∷ []) ∷ [] ∷ (hit 3 ∷ []) ∷ []) 4 64 fresh refl
      (omega arith, (omega arith, (omega arith, tt))) (omega arith) (omega arith) (omega arith)
