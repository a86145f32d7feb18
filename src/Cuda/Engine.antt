-- ===== src/Cuda/Engine.antt =====
-- src/cuda/engine.cu, the mining kernels: what a thread computes for its nonces. `unsigned int`
-- arithmetic wraps at 32 bits. A launch runs its threads in any order; here a row of the grid is the
-- list of what its threads find, lane by lane. CUDA's own calls are not modelled.
pub mod Digest
pub mod Nonces
pub mod Mined
use btc_multipool_cache_mine.Base.{
  ℕ, zero, suc, ◌+◌, ◌-◌, ◌*◌, List, [], ◌∷◌, ◌++◌, Bool, true, false, not, ◌&&◌, ◌==◌, ltb, leb,
  if◌then◌else◌, u32, get_or, take, drop, replicate,
}
use btc_multipool_cache_mine.Normalize.Endian.{bswap32, be_bytes}
use btc_multipool_cache_mine.Submit.HashTarget.{leq_bytes}
use btc_multipool_cache_mine.Cuda.HitRing.{HitRecord}
use btc_multipool_cache_mine.Cuda.Sha256d.{
  sha256_compress, words_of, bytes_of, sha256_32_be, sha256d_80_be,
}

pub record DeviceJob : Type 0 where
  pub version : ℕ
  pub ntime : ℕ
  pub nbits : ℕ
  pub vmask : ℕ
  pub ntime_min : ℕ
  pub ntime_max : ℕ
  pub extranonce2_size : ℕ
  pub work_id : ℕ
  pub prevhash_le : List ℕ
  pub merkle_root_le : List ℕ
  pub share_target_le : List ℕ
  pub block_target_le : List ℕ
  pub midstate_le : List ℕ
  pub share_target_be : List ℕ

-- A limit of 0 is none; the upper one is looked at last.
unfoldable pub raised : ℕ → ℕ → ℕ
raised low ntime = if not (low == 0) && ltb ntime low then low else ntime

unfoldable pub lowered : ℕ → ℕ → ℕ
lowered high ntime = if not (high == 0) && ltb high ntime then high else ntime

unfoldable pub ntime_of : DeviceJob → ℕ
unfolding raised lowered
ntime_of job = lowered job.ntime_max (raised job.ntime_min job.ntime)

-- The 80 bytes of `header`, each word with its most significant byte first.
unfoldable pub header80 : DeviceJob → ℕ → List ℕ
header80 job nonce =
    be_bytes job.version
    ++ (bytes_of job.prevhash_le
        ++ (bytes_of job.merkle_root_le
            ++ (be_bytes (ntime_of job) ++ (be_bytes job.nbits ++ be_bytes nonce))))

-- "If any word of midstate is non-zero, assume a valid midstate was provided."
unfoldable pub used_midstate : List ℕ → Bool
used_midstate [] = false
used_midstate (w ∷ ws) = if w == 0 then used_midstate ws else true

-- The padding behind the last 16 bytes of a header.
abbrev pub tail_padding : List ℕ
tail_padding = 0x80000000 ∷ (replicate 10 0 ++ 640 ∷ [])

unfoldable pub from_midstate : List ℕ → List ℕ → List ℕ
from_midstate midstate four =
    sha256_32_be (bytes_of (sha256_compress midstate (four ++ tail_padding)))

-- `kernel_mine_stub` takes the last words out of `header`.
unfoldable pub stub_digest : DeviceJob → ℕ → List ℕ
stub_digest job nonce =
    if used_midstate job.midstate_le
    then from_midstate job.midstate_le (words_of (take 16 (drop 64 (header80 job nonce))))
    else sha256d_80_be (header80 job nonce)

-- `kernel_mine_batch` swaps the bytes of the job's words.
unfoldable pub batch_words : DeviceJob → ℕ → List ℕ
batch_words job nonce =
    bswap32 (get_or job.merkle_root_le 7 0)
    ∷ bswap32 (ntime_of job)
    ∷ bswap32 job.nbits
    ∷ bswap32 nonce
    ∷ []

unfoldable pub batch_digest : DeviceJob → ℕ → List ℕ
batch_digest job nonce =
    if used_midstate job.midstate_le
    then from_midstate job.midstate_le (batch_words job nonce)
    else sha256d_80_be (header80 job nonce)

-- `kernel_hash_one`, and the tail of `kernel_mine_batch_unroll`: the midstate is not used.
unfoldable pub plain_digest : DeviceJob → ℕ → List ℕ
plain_digest job nonce = sha256d_80_be (header80 job nonce)

-- A nonce is a hit where its digest is at most the target, byte by byte.
unfoldable pub tested : List ℕ → DeviceJob → ℕ → List HitRecord
tested digest job nonce =
    if leq_bytes digest job.share_target_be
    then record { work_id = job.work_id; nonce = nonce } ∷ []
    else []

unfoldable pub stub_hit : DeviceJob → ℕ → List HitRecord
stub_hit job nonce = tested (stub_digest job nonce) job nonce

unfoldable pub batch_hit : DeviceJob → ℕ → List HitRecord
batch_hit job nonce = tested (batch_digest job nonce) job nonce

unfoldable pub tail_hit : DeviceJob → ℕ → List HitRecord
tail_hit job nonce = tested (plain_digest job nonce) job nonce

unfoldable pub start_nonce : ℕ → ℕ → ℕ → ℕ → ℕ
start_nonce nonce_base j lane nonces_per_thread = u32 (nonce_base + j + lane * nonces_per_thread)

-- The loops over a thread's nonces, for what is done at each of them.
module _ {A : Type 0} where
  -- `k` up to `k + left`.
  unfoldable pub batch_loop : (ℕ → List A) → ℕ → ℕ → ℕ → List A
  batch_loop at start k zero = []
  batch_loop at start k (suc left) = at (u32 (start + k)) ++ batch_loop at start (k + 1) left

  -- `for (; k + UNROLL <= n; k += UNROLL)` on fuel, and the tail.
  unfoldable pub unroll_loop : ℕ → (ℕ → List A) → (ℕ → List A) → ℕ → ℕ → ℕ → ℕ → List A
  unroll_loop unroll at tail_at start n zero k = []
  unroll_loop unroll at tail_at start n (suc fuel) k =
      let more =
        batch_loop at start k unroll
        ++ unroll_loop unroll at tail_at start n fuel (u32 (k + unroll)) in
      if leb (u32 (k + unroll)) n then more else batch_loop tail_at start k (n - k)

  unfoldable pub unroll_thread : ℕ → (ℕ → List A) → (ℕ → List A) → ℕ → ℕ → List A
  unroll_thread unroll at tail_at start n = unroll_loop unroll at tail_at start n (suc n) 0

  -- The choice of a kernel in `launchMineWithPlanBatch`.
  unfoldable pub chosen_thread : (ℕ → List A) → (ℕ → List A) → ℕ → ℕ → List A
  chosen_thread at tail_at start n =
      if leb 8 n
      then unroll_thread 8 at tail_at start n
      else (if leb 4 n
          then unroll_thread 4 at tail_at start n
          else (if leb 2 n then unroll_thread 2 at tail_at start n else batch_loop at start 0 n))

  -- Row `j` of the grid: the threads from `lane` on.
  unfoldable pub row : (ℕ → List A) → (ℕ → List A) → ℕ → ℕ → ℕ → ℕ → ℕ → List A
  row at tail_at nonce_base j n lane zero = []
  row at tail_at nonce_base j n lane (suc lanes) =
      chosen_thread at tail_at (start_nonce nonce_base j lane n) n
      ++ row at tail_at nonce_base j n (lane + 1) lanes

  -- `launchMineWithPlanBatch` for job `j`: a count of 0 is taken for 1.
  unfoldable pub launched : (ℕ → List A) → (ℕ → List A) → ℕ → ℕ → ℕ → ℕ → ℕ → List A
  launched at tail_at nonce_base j blocks threads nonces_per_thread =
      row at tail_at nonce_base j (if nonces_per_thread == 0 then 1 else nonces_per_thread) 0
        (blocks * threads)

-- The hits of a launch for a job.
unfoldable pub launch_mine_with_plan_batch : DeviceJob → ℕ → ℕ → ℕ → ℕ → ℕ → List HitRecord
launch_mine_with_plan_batch job nonce_base j blocks threads nonces_per_thread =
    launched (batch_hit job) (tail_hit job) nonce_base j blocks threads nonces_per_thread

-- `kernel_mine_stub` tests one nonce for a job, whatever the plan.
unfoldable pub launch_mine_stub : DeviceJob → ℕ → ℕ → List HitRecord
launch_mine_stub job nonce_base j = stub_hit job (u32 (nonce_base + j))
