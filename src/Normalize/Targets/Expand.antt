-- ===== src/Normalize/Targets/Expand.antt =====
-- What `compactToTargetU32LE` of src/normalize/targets.cc stores, on each of its branches.
use btc_multipool_cache_mine.Base.{
  ℕ, ◌-◌, ◌*◌, ◌/◌, ◌%◌, ◌^◌, ◌<◌, ◌≤◌, ◌≡◌, ◌≢◌, refl, ap, ◌⊎◌, inl, inr, bit_and, List, [], ◌∷◌,
  true, false, arith, replicate, ◌==◌, eq→==, ne→==, lt→ltb, le→ltb, le→leb, lt→leb,
}
use btc_multipool_cache_mine.Base.Bits.{and_mask, and_field}
use btc_multipool_cache_mine.Base.Checked.{ok}
use btc_multipool_cache_mine.Normalize.Endian.{bswap32, be_word, be32_bytes_to_le_u32_words}
use btc_multipool_cache_mine.Normalize.Targets.{
  set_from_big_endian_bytes, store_small, store_large, expand, compact_to_target_u32_le,
}

pub set_from_big_endian_bytes-be32_bytes_to_le_u32_words :
    (bs : List ℕ) → set_from_big_endian_bytes bs ≡ be32_bytes_to_le_u32_words bs
unfolding set_from_big_endian_bytes be32_bytes_to_le_u32_words bswap32
set_from_big_endian_bytes-be32_bytes_to_le_u32_words (a ∷ b ∷ c ∷ d ∷ rest) =
    ap (◌∷◌ (bswap32 (be_word a b c d))) (set_from_big_endian_bytes-be32_bytes_to_le_u32_words rest)
set_from_big_endian_bytes-be32_bytes_to_le_u32_words [] = refl
set_from_big_endian_bytes-be32_bytes_to_le_u32_words (a ∷ []) = refl
set_from_big_endian_bytes-be32_bytes_to_le_u32_words (a ∷ b ∷ []) = refl
set_from_big_endian_bytes-be32_bytes_to_le_u32_words (a ∷ b ∷ c ∷ []) = refl

-- The parts of a compact target.
abbrev pub exponent : ℕ → ℕ
exponent n = n / 2 ^ 24

abbrev pub sign : ℕ → ℕ
sign n = n / 2 ^ 23 % 2

abbrev pub mantissa : ℕ → ℕ
mantissa n = n % 2 ^ 23

sign_bit : (n : ℕ) → bit_and n 0x00800000 ≡ sign n * 2 ^ 23
sign_bit n = omega (arith, and_field 23 1 n, and_mask 1 (n / 2 ^ 23))

module _ (n : ℕ) where
  pub compact_zero :
      (sign n ≢ 0) ⊎ (mantissa n ≡ 0) → compact_to_target_u32_le n ≡ ok (replicate 8 0)
  unfolding compact_to_target_u32_le
  compact_zero (inl h) = rw (ne→== (bit_and n 0x00800000) 0 (omega (arith, sign_bit n)))
  compact_zero (inr h) = rw (and_mask 23 n, eq→== (mantissa n) 0 h) (ground arith)

  module _ (positive : sign n ≡ 0) (nonzero : mantissa n ≢ 0) where
    signed : (bit_and n 0x00800000 == 0) ≡ true
    signed = eq→== (bit_and n 0x00800000) 0 (omega (arith, sign_bit n))

    filled : (mantissa n == 0) ≡ false
    filled = ne→== (mantissa n) 0 nonzero

    pub compact_small :
        exponent n ≤ 3
        → compact_to_target_u32_le n
          ≡ expand (store_small (exponent n) (mantissa n) (replicate 32 0))
    unfolding compact_to_target_u32_le
    compact_small h = rw (signed, and_mask 23 n, filled, le→leb (exponent n) 3 h)

    pub compact_max : 32 < exponent n → compact_to_target_u32_le n ≡ ok (replicate 8 0xFFFFFFFF)
    unfolding compact_to_target_u32_le
    compact_max h = rw (
      signed,
      and_mask 23 n,
      filled,
      lt→leb (exponent n) 3 (omega arith),
      lt→ltb 32 (exponent n) h,
    )

    pub compact_large :
        3 < exponent n
        → exponent n ≤ 32
        → compact_to_target_u32_le n
          ≡ expand (store_large (32 - exponent n) (mantissa n) (replicate 32 0))
    unfolding compact_to_target_u32_le
    compact_large lo hi =
        rw (signed, and_mask 23 n, filled, lt→leb (exponent n) 3 lo, le→ltb 32 (exponent n) hi)
