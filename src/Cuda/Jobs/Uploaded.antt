-- ===== src/Cuda/Jobs/Uploaded.antt =====
-- src/cuda/engine.cu: a launch mines every job that was uploaded.
use btc_multipool_cache_mine.Base.{
  ℕ, zero, suc, ◌+◌, ◌*◌, ◌^◌, ◌<◌, ◌≤◌, ◌≡◌, refl, sym, ap, ◌∙◌, List, [], ◌∷◌, ◌++◌, true, false,
  arith, ltb, ne→==, take, drop, length, get_elem?, get_elem?-append, append_assoc, length-append,
  All, Bool-cases, inl, inr, ltb→lt,
}
use btc_multipool_cache_mine.Base.Checked.{ok}
use btc_multipool_cache_mine.Cuda.HitRing.{HitRecord}
use btc_multipool_cache_mine.Cuda.Engine.{DeviceJob, used_midstate}
use btc_multipool_cache_mine.Cuda.Engine.Nonces.{consecutive, gather}
use btc_multipool_cache_mine.Cuda.Engine.Mined.{hit_at, launch_mine_with_plan_batch-hit_at}
use btc_multipool_cache_mine.Cuda.Jobs.{
  DeviceJobs, uploaded, const_count, upload_device_jobs, job_at, rows, launch_all,
}

get_elem?-take :
    (xs ys : List DeviceJob) (n j : ℕ)
    → j < n
    → n ≤ length xs
    → get_elem? (take n xs ++ ys) j ≡ get_elem? xs j
get_elem?-take xs ys zero j lt le = absurd (omega arith)
get_elem?-take [] ys (suc n) j lt le = absurd (omega arith)
get_elem?-take (x ∷ xs) ys (suc n) zero lt le = refl
get_elem?-take (x ∷ xs) ys (suc n) (suc j) lt le =
    get_elem?-take xs ys n j (omega arith) (omega arith)

upload_device_jobs-uploaded :
    (jobs : List DeviceJob) (s : DeviceJobs)
    → 0 < length jobs
    → upload_device_jobs jobs s ≡ (true, uploaded jobs s)
unfolding upload_device_jobs
upload_device_jobs-uploaded jobs s some_jobs = rw (ne→== (length jobs) 0 (omega arith))

uploaded-job_at :
    (jobs : List DeviceJob) (s : DeviceJobs) (j : ℕ) → job_at (uploaded jobs s) j ≡ get_elem? jobs j
unfolding job_at
uploaded-job_at jobs s j = elim (Bool-cases (ltb j (const_count jobs))) [
  | inl early ↦ rw early (
      get_elem?-take jobs (drop (const_count jobs) s.jobs_const) (const_count jobs) j
        (ltb→lt j (const_count jobs) early) (ground arith))
  | inr late ↦ rw late
]

-- A row for each job, from number `j` on.
unfoldable pub mined : ℕ → ℕ → ℕ → ℕ → List DeviceJob → List HitRecord
mined nonce_base total n j [] = []
mined nonce_base total n j (job ∷ jobs) =
    gather (hit_at job) (consecutive (nonce_base + j) (total * n))
    ++ mined nonce_base total n (j + 1) jobs

-- The midstate was left zero, and the hashes have 8 words.
pub record IsPlain (job : DeviceJob) : Type 0 where
  pub zeros : used_midstate job.midstate_le ≡ false
  pub prevhash : length job.prevhash_le ≡ 8
  pub root : length job.merkle_root_le ≡ 8

rows-mined :
    (s : DeviceJobs) (blocks threads nonce_base n : ℕ) (before jobs : List DeviceJob) (j : ℕ)
    → ((i : ℕ) → job_at s i ≡ get_elem? (before ++ jobs) i)
    → j ≡ length before
    → All IsPlain jobs
    → 0 < n
    → n + 8 < 2 ^ 32
    → rows s blocks threads nonce_base n j (length jobs)
      ≡ ok (mined nonce_base (blocks * threads) n j jobs)
unfolding rows mined
rows-mined s blocks threads nonce_base n before [] j at e plain pos fits = refl
rows-mined s blocks threads nonce_base n before (job ∷ jobs) j at e plain pos fits = rw (
  at j,
  rows,
  get_elem?-append before jobs job j e,
  launch_mine_with_plan_batch-hit_at job plain.0.zeros plain.0.prevhash plain.0.root nonce_base j
      blocks threads n pos fits,
  rows-mined s blocks threads nonce_base n (before ++ job ∷ []) jobs (j + 1)
      (λ i. at i ∙ ap (λ all. get_elem? all i) (sym (append_assoc before (job ∷ []) jobs)))
      (omega (arith, e, length-append before (job ∷ []))) plain.1 pos fits,
)

-- After the upload of at least one job, each with its midstate words zero and its hashes of 8
-- words, a launch over all of them, with blocks, threads and 1 to 2 ^ 32 - 9 nonces for a thread,
-- succeeds; job j, counted from 0, is mined from the nonce nonce_base + j on, so that each job
-- starts one nonce after the job before it and not on a common one: job by job, the launch finds
-- the hits of exactly the blocks * threads * nonces nonces from there, in order and modulo 2 ^ 32,
-- whichever of the four kernels is chosen and from whichever memory the job is read. A nonce is a
-- hit where the double SHA-256 of its header, byte by byte, is at most the job's target.
pub launch_all-mined :
    (jobs : List DeviceJob) (s : DeviceJobs) (blocks threads nonce_base n : ℕ)
    → 0 < length jobs
    → All IsPlain jobs
    → 0 < blocks
    → 0 < threads
    → 0 < n
    → n + 8 < 2 ^ 32
    → launch_all (upload_device_jobs jobs s).1 (length jobs) blocks threads nonce_base n
      ≡ ok (true, mined nonce_base (blocks * threads) n 0 jobs)
unfolding launch_all
launch_all-mined jobs s blocks threads nonce_base n some_jobs plain b t pos fits =
    ap (λ u. launch_all u.1 (length jobs) blocks threads nonce_base n)
      (upload_device_jobs-uploaded jobs s some_jobs)
    ∙ rw (
      ne→== (length jobs) 0 (omega arith),
      ne→== blocks 0 (omega arith),
      ne→== threads 0 (omega arith),
      rows-mined (uploaded jobs s) blocks threads nonce_base n [] jobs 0 (uploaded-job_at jobs s)
          refl plain pos fits,
    )
