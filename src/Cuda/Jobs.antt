-- ===== src/Cuda/Jobs.antt =====
-- src/cuda/engine.cu: the table of jobs on the device, and a launch over all of them. The first 64
-- jobs are read from constant memory. A read outside a table is a fault.
pub mod Uploaded
use btc_multipool_cache_mine.Base.{
  ℕ, zero, suc, ◌+◌, List, [], ◌∷◌, ◌++◌, Option, none, some, Bool, true, false, ◌||◌, ◌==◌, ltb,
  if◌then◌else◌, take, drop, length, get_elem?, u32,
}
use btc_multipool_cache_mine.Base.Checked.{Checked, ok, out_of_bounds, ◌>>=◌}
use btc_multipool_cache_mine.Cuda.HitRing.{HitRecord}
use btc_multipool_cache_mine.Cuda.Engine.{DeviceJob, plain_digest, launch_mine_with_plan_batch}

-- `s_device_jobs` (whether there is a table), `g_jobs`, `g_jobs_const` and its size, `g_num_jobs`.
pub record DeviceJobs : Type 0 where
  pub allocated : Bool
  pub jobs : List DeviceJob
  pub jobs_const : List DeviceJob
  pub jobs_const_size : ℕ
  pub num_jobs : ℕ

abbrev pub const_count : List DeviceJob → ℕ
const_count jobs = if ltb 64 (length jobs) then 64 else length jobs

abbrev pub uploaded : List DeviceJob → DeviceJobs → DeviceJobs
uploaded jobs s = record {
  allocated = true;
  jobs = jobs;
  jobs_const = take (const_count jobs) jobs ++ drop (const_count jobs) s.jobs_const;
  jobs_const_size = const_count jobs;
  num_jobs = length jobs;
}

unfoldable pub upload_device_jobs : List DeviceJob → DeviceJobs → Bool × DeviceJobs
upload_device_jobs jobs s = if length jobs == 0 then (false, s) else (true, uploaded jobs s)

-- `(j < g_jobs_const_size) ? &g_jobs_const[j] : &g_jobs[j]`.
unfoldable pub job_at : DeviceJobs → ℕ → Option DeviceJob
job_at s j = if ltb j s.jobs_const_size then get_elem? s.jobs_const j else get_elem? s.jobs j

-- The rows of the grid from `j` on.
unfoldable pub rows : DeviceJobs → ℕ → ℕ → ℕ → ℕ → ℕ → ℕ → Checked (List HitRecord)
rows s blocks threads nonce_base n j zero = ok []
rows s blocks threads nonce_base n j (suc left) = elim (job_at s j) [
  | none ↦ out_of_bounds
  | some job ↦
      rows s blocks threads nonce_base n (j + 1) left
      >>= (λ hits. ok (launch_mine_with_plan_batch job nonce_base j blocks threads n ++ hits))
]

-- `launchMineWithPlanBatch`, with whether it launched.
unfoldable pub launch_all : DeviceJobs → ℕ → ℕ → ℕ → ℕ → ℕ → Checked (Bool × List HitRecord)
launch_all s num_jobs blocks threads nonce_base n =
    if ((s.num_jobs == 0) || (num_jobs == 0)) || ((blocks == 0) || (threads == 0))
    then ok (false, [])
    else (rows s blocks threads nonce_base n 0 num_jobs >>= (λ hits. ok (true, hits)))

-- `computeDeviceHashForJob`, which reads `g_jobs`.
unfoldable pub compute_device_hash_for_job : DeviceJobs → ℕ → ℕ → Checked (Option (List ℕ))
compute_device_hash_for_job s j nonce =
    if s.allocated
    then elim (get_elem? s.jobs j) [
      | none ↦ out_of_bounds
      | some job ↦ ok (some (plain_digest job nonce))
    ]
    else ok none
