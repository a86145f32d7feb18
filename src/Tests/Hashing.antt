-- ===== src/Tests/Hashing.antt =====
-- SHA-256, the midstate, the comparison with a target, the byte order and the Merkle root.
use btc_multipool_cache_mine.Base.{
  ℕ, ◌≤◌, ◌<◌, ◌^◌, ◌≡◌, ◌↔◌, refl, List, [], ◌∷◌, ◌++◌, true, arith, replicate,
}
use btc_multipool_cache_mine.Base.Value.{be_value}
use btc_multipool_cache_mine.Submit.Sha256.{
  sha256, sha256_over, sha256_init, sha256_update, update_byte, sha256_final, pad_state, fill_zero,
  put_bitlen,
}
use btc_multipool_cache_mine.Submit.Sha256.Transform.{transform, digest}
use btc_multipool_cache_mine.Submit.Sha256.Spec.{standard, be64}
use btc_multipool_cache_mine.Submit.Sha256.Standard.{sha256_over-standard, put_bitlen-be64_iff}
use btc_multipool_cache_mine.Submit.Sha256.Digest.{sha256-AreBytes, length-sha256}
use btc_multipool_cache_mine.Submit.HashTarget.{is_hash_leq_target}
use btc_multipool_cache_mine.Submit.HashTarget.Order.{is_hash_leq_target_iff, target_value}
use btc_multipool_cache_mine.Normalize.Midstate.{sha256_midstate_64, sha256_finish_from_midstate}
use btc_multipool_cache_mine.Normalize.Midstate.Correct.{finish_from_midstate-sha256_midstate_64}
use btc_multipool_cache_mine.Normalize.Merkle.{compute_merkle_root_be}
use btc_multipool_cache_mine.Normalize.Merkle.Tree.{tree_root, compute_merkle_root_be-tree_root}

abbrev abc : List ℕ
abc = 97 ∷ 98 ∷ 99 ∷ []

abbrev abc_hash : List ℕ
abc_hash =
    0xba ∷ 0x78 ∷ 0x16 ∷ 0xbf ∷ 0x8f ∷ 0x01 ∷ 0xcf ∷ 0xea ∷ 0x41 ∷ 0x41 ∷ 0x40 ∷ 0xde ∷ 0x5d ∷ 0xae
    ∷ 0x22 ∷ 0x23 ∷ 0xb0 ∷ 0x03 ∷ 0x61 ∷ 0xa3 ∷ 0x96 ∷ 0x17 ∷ 0x7a ∷ 0x9c ∷ 0xb4 ∷ 0x10 ∷ 0xff
    ∷ 0x61 ∷ 0xf2 ∷ 0x00 ∷ 0x15 ∷ 0xad ∷ []

-- The published digest of "abc".
sha256-abc : sha256 abc ≡ abc_hash
unfolding sha256 sha256_init sha256_update update_byte sha256_final transform digest pad_state
    fill_zero put_bitlen
sha256-abc = refl

sha256_over-standard_example : sha256_over (replicate 64 0xAA) abc ≡ standard abc
sha256_over-standard_example = sha256_over-standard (replicate 64 0xAA) abc refl (omega arith)

put_bitlen-be64_iff_example :
    (put_bitlen (replicate 56 3 ++ replicate 8 4) 24 ≡ replicate 56 3 ++ be64 24) ↔ (24 < 2 ^ 40)
put_bitlen-be64_iff_example =
    put_bitlen-be64_iff (replicate 56 3) (replicate 8 4) 24 refl refl (omega arith)

finish_from_midstate-sha256_midstate_64_example :
    sha256_finish_from_midstate (sha256_midstate_64 (replicate 64 5)) (replicate 16 7) 80
    ≡ sha256_over (replicate 64 1) (replicate 64 5 ++ replicate 16 7)
finish_from_midstate-sha256_midstate_64_example =
    finish_from_midstate-sha256_midstate_64 (replicate 64 1) (replicate 64 5) (replicate 16 7) refl
      refl

is_hash_leq_target_iff_example :
    (is_hash_leq_target (sha256 abc) (replicate 8 0x00ffffff) ≡ true)
    ↔ (be_value (sha256 abc) ≤ target_value (replicate 8 0x00ffffff))
is_hash_leq_target_iff_example =
    is_hash_leq_target_iff (sha256 abc) (replicate 8 0x00ffffff) (length-sha256 abc)
      (sha256-AreBytes abc) refl

abbrev three_ids : List (List ℕ)
three_ids = replicate 32 1 ∷ replicate 32 2 ∷ replicate 32 3 ∷ []

compute_merkle_root_be-tree_root_example : compute_merkle_root_be three_ids ≡ tree_root 2 three_ids
compute_merkle_root_be-tree_root_example =
    compute_merkle_root_be-tree_root 2 three_ids (omega arith) (omega arith)
