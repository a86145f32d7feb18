-- ===== src/Tools/Runner/Jobs.antt =====
-- src/tools/stratum_registry_runner.cpp: the job that is uploaded to the device, and the header that
-- is put together again for a hit.
pub mod Agree
use btc_multipool_cache_mine.Base.{ℕ, zero, suc, ◌+◌, ◌-◌, List, [], ◌++◌, get_or}
use btc_multipool_cache_mine.Normalize.Endian.{be_bytes, le_u32_words_to_be32_bytes}
use btc_multipool_cache_mine.Registry.{WorkItem, WorkSlotSnapshot}
use btc_multipool_cache_mine.Cuda.Engine.{DeviceJob}

-- `share_target_be`: the words from the last to the first; `left` of them from index `w` on.
unfoldable pub target_loop : ℕ → ℕ → List ℕ → List ℕ
target_loop zero w target_le = []
target_loop (suc left) w target_le =
    be_bytes (get_or target_le (7 - w) 0) ++ target_loop left (w + 1) target_le

unfoldable pub device_job : WorkSlotSnapshot → DeviceJob
unfolding target_loop
device_job s = record {
  version = s.item.version;
  ntime = s.item.ntime;
  nbits = s.item.nbits;
  vmask = s.item.vmask;
  ntime_min = s.item.ntime_min;
  ntime_max = s.item.ntime_max;
  extranonce2_size = s.item.extranonce2_size;
  work_id = s.item.work_id;
  prevhash_le = s.item.prevhash_le;
  merkle_root_le = s.item.merkle_root_le;
  share_target_le = s.item.share_target_le;
  block_target_le = s.item.block_target_le;
  midstate_le = s.job_const.midstate_le;
  share_target_be = target_loop 8 0 s.item.share_target_le;
}

-- `header` for the check of a hit on the host; `store_u32_be` writes `be_bytes`.
unfoldable pub host_header : WorkItem → ℕ → List ℕ
host_header item nonce =
    be_bytes item.version
    ++ (le_u32_words_to_be32_bytes item.prevhash_le
        ++ (le_u32_words_to_be32_bytes item.merkle_root_le
            ++ (be_bytes item.ntime ++ (be_bytes item.nbits ++ be_bytes nonce))))
