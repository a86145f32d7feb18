-- ===== src/Normalize/Normalizer/Job.antt =====
-- `normalizeJob` of src/normalize/normalizer.cc: what the work item still says of the job.
use btc_multipool_cache_mine.Base.{ℕ, ◌+◌, ◌≡◌, refl, List, ◌++◌, some, true, length, AreBytes}
use btc_multipool_cache_mine.Base.Checked.{ok}
use btc_multipool_cache_mine.Normalize.Endian.{le_u32_words_to_be32_bytes}
use btc_multipool_cache_mine.Normalize.Endian.Roundtrip.{
  le_u32_words_to_be32_bytes-be32_bytes_to_le_u32_words,
}
use btc_multipool_cache_mine.Normalize.Midstate.{sha256_finish_from_midstate}
use btc_multipool_cache_mine.Normalize.Midstate.Correct.{finish_from_midstate-sha256_midstate_64}
use btc_multipool_cache_mine.Normalize.Targets.Stored.{Expands}
use btc_multipool_cache_mine.Submit.HashTarget.Order.{target_value}
use btc_multipool_cache_mine.Submit.Sha256.{sha256_over}
use btc_multipool_cache_mine.Normalize.Normalizer.{
  RawJobInputs, NormalizerResult, normalized, normalize_job,
}

-- The result of a job whose targets are these numbers.
pub record Describes (input : RawJobInputs) (share block : ℕ) : Type 0 where
  pub result : NormalizerResult
  pub returns : normalize_job input ≡ ok (some result)
  pub work_id : result.item.work_id ≡ input.job.work_id
  pub prevhash : le_u32_words_to_be32_bytes result.item.prevhash_le ≡ input.prevhash_be
  pub merkle_root : le_u32_words_to_be32_bytes result.item.merkle_root_le ≡ input.merkle_root_be
  pub share_target : target_value result.item.share_target_le ≡ share
  pub block_target : target_value result.item.block_target_le ≡ block
  pub active : result.item.active ≡ true
  pub hashes :
      (garbage tail : List ℕ)
      → length garbage ≡ 64
      → sha256_finish_from_midstate result.job_const.midstate_le tail (64 + length tail)
        ≡ sha256_over garbage (input.header_first64 ++ tail)

-- For 32-byte hashes, a first header part of 64 bytes, and compact targets that expand to two
-- given numbers, `normalizeJob` returns an active item with the job's id; its words turn back into
-- the job's previous hash and Merkle root, its targets are the two numbers, and finishing SHA-256
-- from its midstate hashes the 64 bytes followed by any tail.
pub normalize_job-Describes :
    (input : RawJobInputs) (share block : ℕ)
    → length input.prevhash_be ≡ 32
    → AreBytes input.prevhash_be
    → length input.merkle_root_be ≡ 32
    → AreBytes input.merkle_root_be
    → length input.header_first64 ≡ 64
    → Expands input.share_nbits share
    → Expands input.job.nbits block
    → Describes input share block
normalize_job-Describes input share block lp ap' lm am lh es eb = record {
  result = normalized input eb.words es.words;
  returns = unfold normalize_job in rw (eb.returns, es.returns);
  work_id = refl;
  prevhash = le_u32_words_to_be32_bytes-be32_bytes_to_le_u32_words 8 input.prevhash_be lp ap';
  merkle_root = le_u32_words_to_be32_bytes-be32_bytes_to_le_u32_words 8 input.merkle_root_be lm am;
  share_target = es.value;
  block_target = eb.value;
  active = refl;
  hashes = λ garbage tail g.
      finish_from_midstate-sha256_midstate_64 garbage input.header_first64 tail g lh;
}
