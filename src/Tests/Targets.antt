-- ===== src/Tests/Targets.antt =====
-- Compact targets, the normalizer, and the limits on rolled fields.
use btc_multipool_cache_mine.Base.{ℕ, ◌-◌, ◌*◌, ◌/◌, ◌^◌, refl, [], true, arith, replicate}
use btc_multipool_cache_mine.Normalize.Targets.Expand.{exponent, mantissa}
use btc_multipool_cache_mine.Normalize.Targets.Stored.{Expands}
use btc_multipool_cache_mine.Normalize.Targets.Amount.{
  compact_to_target-amount, compact_to_target-amount_small,
}
use btc_multipool_cache_mine.Normalize.Normalizer.{RawJobInputs}
use btc_multipool_cache_mine.Normalize.Normalizer.Job.{Describes, normalize_job-Describes}

-- The target of difficulty 1.
compact_to_target-amount_example :
    Expands 0x1d00ffff (mantissa 0x1d00ffff * 256 ^ (exponent 0x1d00ffff - 3))
compact_to_target-amount_example =
    compact_to_target-amount 0x1d00ffff refl (omega arith) (omega arith) (omega arith)

compact_to_target-amount_small_example :
    Expands 0x02123456 (mantissa 0x02123456 / 256 ^ (4 - exponent 0x02123456))
compact_to_target-amount_small_example =
    compact_to_target-amount_small 0x02123456 refl (omega arith) (omega arith) (omega arith)

abbrev pub inputs : ℕ → RawJobInputs
inputs work_id = record {
  source_id = 1;
  job = record {
    source_name = [];
    work_id = work_id;
    version = 0x20000000;
    nbits = 0x1d00ffff;
    ntime = 1700000000;
  };
  prevhash_be = replicate 32 7;
  merkle_root_be = replicate 32 9;
  header_first64 = replicate 64 3;
  share_nbits = 0x1f00ffff;
  vmask = 0x1fffe000;
  ntime_min = 0;
  ntime_max = 0;
  extranonce2_size = 4;
  clean_jobs = true;
}

normalize_job-Describes_example :
    Describes
      (inputs 5)
      (mantissa 0x1f00ffff * 256 ^ (exponent 0x1f00ffff - 3))
      (mantissa 0x1d00ffff * 256 ^ (exponent 0x1d00ffff - 3))
normalize_job-Describes_example =
    normalize_job-Describes (inputs 5) (mantissa 0x1f00ffff * 256 ^ (exponent 0x1f00ffff - 3))
      (mantissa 0x1d00ffff * 256 ^ (exponent 0x1d00ffff - 3)) refl (omega arith) refl (omega arith)
      refl (compact_to_target-amount 0x1f00ffff refl (omega arith) (omega arith) (omega arith))
      (compact_to_target-amount 0x1d00ffff refl (omega arith) (omega arith) (omega arith))
