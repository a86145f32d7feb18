-- ===== src/Normalize/Normalizer.antt =====
-- src/normalize/normalizer.cc: a job as a pool gives it, made into a work item and its constants.
-- The fields of `adapters::RawJob` (src/adapters/adapter_base.h) that it reads stand in the inputs.
pub mod Job
use btc_multipool_cache_mine.Base.{
  ℕ, List, Option, none, some, Bool, true, false, if◌then◌else◌, ◌==◌,
}
use btc_multipool_cache_mine.Base.Checked.{Checked, ok, ◌>>=◌}
use btc_multipool_cache_mine.Registry.{WorkItem, GpuJobConst}
use btc_multipool_cache_mine.Normalize.Endian.{be32_bytes_to_le_u32_words}
use btc_multipool_cache_mine.Normalize.Targets.{compact_to_target_u32_le}
use btc_multipool_cache_mine.Normalize.Midstate.{sha256_midstate_64}

pub record RawJob : Type 0 where
  pub source_name : List ℕ
  pub work_id : ℕ
  pub version : ℕ
  pub nbits : ℕ
  pub ntime : ℕ

pub record RawJobInputs : Type 0 where
  pub source_id : ℕ
  pub job : RawJob
  pub prevhash_be : List ℕ
  pub merkle_root_be : List ℕ
  pub header_first64 : List ℕ
  pub share_nbits : ℕ
  pub vmask : ℕ
  pub ntime_min : ℕ
  pub ntime_max : ℕ
  pub extranonce2_size : ℕ
  pub clean_jobs : Bool

pub record NormalizerResult : Type 0 where
  pub item : WorkItem
  pub job_const : GpuJobConst

-- `a ? a : b`.
unfoldable pub or_else : ℕ → ℕ → ℕ
or_else a b = if a == 0 then b else a

-- The result, with the two targets.
abbrev pub normalized : RawJobInputs → List ℕ → List ℕ → NormalizerResult
normalized input block_target share_target = record {
  item = record {
    work_id = input.job.work_id;
    source_id = input.source_id;
    version = input.job.version;
    ntime = input.job.ntime;
    nbits = input.job.nbits;
    nonce_start = 0;
    prevhash_le = be32_bytes_to_le_u32_words input.prevhash_be;
    merkle_root_le = be32_bytes_to_le_u32_words input.merkle_root_be;
    share_target_le = share_target;
    block_target_le = block_target;
    vmask = input.vmask;
    ntime_min = or_else input.ntime_min input.job.ntime;
    ntime_max = or_else input.ntime_max input.job.ntime;
    extranonce2_size = input.extranonce2_size;
    clean_jobs = input.clean_jobs;
    active = true;
    found_submitted = false;
  };
  job_const = record { midstate_le = sha256_midstate_64 input.header_first64 };
}

unfoldable pub normalize_job : RawJobInputs → Checked (Option NormalizerResult)
normalize_job input = do
  block_target ← compact_to_target_u32_le input.job.nbits
  share_target ← compact_to_target_u32_le input.share_nbits
  ok (some (normalized input block_target share_target))
