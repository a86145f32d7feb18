-- ===== src/Tools/Runner/Hits/Routes.antt =====
-- src/tools/stratum_registry_runner.cpp: which hits are shares, which are blocks, and which are lost.
use btc_multipool_cache_mine.Base.{
  ℕ, ◌+◌, ◌≡◌, List, [], ◌∷◌, ◌++◌, Option, none, some, Bool, if◌then◌else◌, leb, arith, length,
  map, length-append,
}
use btc_multipool_cache_mine.Base.Value.{be_value}
use btc_multipool_cache_mine.Registry.{WorkItem, WorkSlotSnapshot}
use btc_multipool_cache_mine.Normalize.Endian.{bswap32, be_bytes, le_u32_words_to_be32_bytes}
use btc_multipool_cache_mine.Normalize.Endian.Words.{length-be_bytes}
use btc_multipool_cache_mine.Submit.Sha256.Spec.{standard}
use btc_multipool_cache_mine.Submit.HashTarget.Order.{
  target_value, length-le_u32_words_to_be32_bytes,
}
use btc_multipool_cache_mine.Submit.Router.{SubmitRouter, pending, enqueue_in}
use btc_multipool_cache_mine.Submit.Router
use btc_multipool_cache_mine.Submit.Gbt.{GbtSubmitter, is_empty}
use btc_multipool_cache_mine.Submit.Gbt.Hex.{bytes_to_hex, encode_var_int_hex}
use btc_multipool_cache_mine.Submit.Gbt.Block.{transactions, joined}
use btc_multipool_cache_mine.Cuda.Sha256d.{bytes_of}
use btc_multipool_cache_mine.Tools.Runner.Jobs.Agree.{words}
use btc_multipool_cache_mine.Cuda.HitRing.{HitRecord}
use btc_multipool_cache_mine.Tools.Runner.Jobs.{host_header}
use btc_multipool_cache_mine.Tools.Runner.Hits.{Mined}

-- The number of a header's double SHA-256, its first byte the most significant.
abbrev pub hash_value : List ℕ → ℕ
hash_value header = be_value (standard (standard header))

pub length-host_header :
    (item : WorkItem) (nonce : ℕ)
    → length item.prevhash_le ≡ 8
    → length item.merkle_root_le ≡ 8
    → length (host_header item nonce) ≡ 80
unfolding host_header
length-host_header item nonce p m = omega (
  arith,
  length-append (be_bytes item.version) (
      le_u32_words_to_be32_bytes item.prevhash_le
      ++ (le_u32_words_to_be32_bytes item.merkle_root_le
          ++ (be_bytes item.ntime ++ (be_bytes item.nbits ++ be_bytes nonce)))),
  length-append (le_u32_words_to_be32_bytes item.prevhash_le) (
      le_u32_words_to_be32_bytes item.merkle_root_le
      ++ (be_bytes item.ntime ++ (be_bytes item.nbits ++ be_bytes nonce))),
  length-append (le_u32_words_to_be32_bytes item.merkle_root_le)
      (be_bytes item.ntime ++ (be_bytes item.nbits ++ be_bytes nonce)),
  length-append (be_bytes item.ntime) (be_bytes item.nbits ++ be_bytes nonce),
  length-append (be_bytes item.nbits) (be_bytes nonce),
  length-be_bytes item.version,
  length-be_bytes item.ntime,
  length-be_bytes item.nbits,
  length-be_bytes nonce,
  length-le_u32_words_to_be32_bytes item.prevhash_le,
  length-le_u32_words_to_be32_bytes item.merkle_root_le,
)

-- The words of an item have their sizes.
pub record IsSized (s : WorkSlotSnapshot) : Type 0 where
  pub prevhash : length s.item.prevhash_le ≡ 8
  pub root : length s.item.merkle_root_le ≡ 8
  pub share : length s.item.share_target_le ≡ 8
  pub block : length s.item.block_target_le ≡ 8

-- A header written from its fields: 20 words, the bytes of each in the order of the number, the
-- words of the two hashes reversed first.
abbrev pub header_of : WorkItem → ℕ → List ℕ
header_of item nonce = bytes_of (
    words item.version (map bswap32 item.prevhash_le) (map bswap32 item.merkle_root_le) item.ntime
      item.nbits nonce)

-- The block as the node is given it: the header, the number of the transactions, their texts.
abbrev pub block_of : List ℕ → GbtSubmitter → List ℕ
block_of header g =
    bytes_to_hex header ++ (encode_var_int_hex (length (transactions g)) ++ joined (transactions g))

module _ (call : List ℕ → Bool) (s : WorkSlotSnapshot) (hit : HitRecord) (m : Mined) where
  abbrev pub header : List ℕ
  header = header_of s.item hit.nonce

  -- The record for the callback.
  abbrev pub submission : Router.HitRecord
  submission = record { work_id = hit.work_id; nonce = hit.nonce; header80 = header }

  -- A share that passes is queued and given to the callback; one that fails is only counted.
  abbrev pub as_share : Mined
  as_share =
      if leb (hash_value header) (target_value s.item.share_target_le)
      then record m {
        router = record m.router { outbox = enqueue_in (pending submission) m.router.outbox };
        called = m.called ++ (if m.router.has_cb then submission ∷ [] else []);
        shares = m.shares + 1;
      }
      else record m { shares = m.shares + 1 }

  -- Without a coinbase the node is not asked; else its answer decides which counter goes up.
  abbrev pub as_block : GbtSubmitter → Mined
  as_block gbt =
      if is_empty gbt.coinbase_hex
      then record m {
        blocks_gbt_no_cb = m.blocks_gbt_no_cb + 1;
        blocks_gbt_fail = m.blocks_gbt_fail + 1;
      }
      else (if call (block_of header gbt)
          then record m { blocks_gbt_ok = m.blocks_gbt_ok + 1 }
          else record m { blocks_gbt_fail = m.blocks_gbt_fail + 1 })

  -- What `process_hit` does to a hit, from the numbers, the fields and the node's answer alone.
  abbrev pub routed : Option GbtSubmitter → Mined
  routed none = as_share
  routed (some gbt) =
      if leb (hash_value header) (target_value s.item.block_target_le)
      then as_block gbt
      else as_share
