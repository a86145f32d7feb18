-- ===== src/Normalize/Targets/Amount.antt =====
-- The number of the target that `compactToTargetU32LE` of src/normalize/targets.cc expands.
use btc_multipool_cache_mine.Base.{
  ℕ, ◌-◌, ◌*◌, ◌/◌, ◌^◌, ◌<◌, ◌≤◌, ◌≡◌, ◌≢◌, refl, ap, ◌∙◌, ◌⊎◌, [], ◌∷◌, ◌++◌, arith, replicate,
}
use native.Mathlib.Decide.{dec_le}
use btc_multipool_cache_mine.Base.Bits.{and_mask}
use btc_multipool_cache_mine.Base.Checked.{ok, out_of_bounds, store}
use btc_multipool_cache_mine.Base.Value.{be_value}
use btc_multipool_cache_mine.Normalize.Endian.{le_u32_words_to_be32_bytes, be_bytes, bswap32}
use btc_multipool_cache_mine.Normalize.Targets.{store_small, expand, compact_to_target_u32_le}
use btc_multipool_cache_mine.Normalize.Targets.Expand.{
  exponent, sign, mantissa, compact_zero, compact_small, compact_max, compact_large,
}
use btc_multipool_cache_mine.Normalize.Targets.Stored.{
  Expands, Expands-stored, large_bytes, store_large-large_bytes, length-large_bytes,
  be_value-large_bytes, large_bytes-AreBytes, top, mid,
}

-- The first branch, at each exponent.
store_small_three : (m : ℕ) → store_small 3 m (replicate 32 0) ≡ ok (large_bytes 3 (m / 2 ^ 0))
unfolding store_small store
store_small_three m = refl

store_small_two :
    (m : ℕ)
    → store_small 2 m (replicate 32 0)
      ≡ ok (replicate 30 0 ++ (top (m / 2 ^ 8) ∷ mid (m / 2 ^ 8) ∷ []))
unfolding store_small store
store_small_two m = refl

store_small_one :
    (m : ℕ) → store_small 1 m (replicate 32 0) ≡ ok (replicate 31 0 ++ (top (m / 2 ^ 16) ∷ []))
unfolding store_small store
store_small_one m = refl

store_small_zero : (m : ℕ) → store_small 0 m (replicate 32 0) ≡ out_of_bounds
unfolding store_small store
store_small_zero m = refl

module _ (n : ℕ) (positive : sign n ≡ 0) (nonzero : mantissa n ≢ 0) where
  -- The first branch, with the exponent known.
  small_at :
      (e : ℕ)
      → exponent n ≡ e
      → e ≤ 3
      → compact_to_target_u32_le n ≡ expand (store_small e (mantissa n) (replicate 32 0))
  small_at e h le =
      compact_small n positive nonzero (omega arith)
      ∙ ap (λ x. expand (store_small x (mantissa n) (replicate 32 0))) h

  amount_three : exponent n ≡ 3 → Expands n (mantissa n)
  amount_three h =
      Expands-stored n (mantissa n) (large_bytes 3 (mantissa n / 2 ^ 0))
        (small_at 3 h (omega arith) ∙ ap expand (store_small_three (mantissa n)))
        (length-large_bytes 3 (mantissa n / 2 ^ 0) (omega arith) (omega arith))
        (large_bytes-AreBytes 3 (mantissa n / 2 ^ 0) (omega arith) (omega arith))
        (be_value-large_bytes 3 (mantissa n / 2 ^ 0) (omega arith) (omega arith) (omega arith)
          ∙ whole)
    where
      whole : mantissa n / 2 ^ 0 * 256 ^ (3 - 3) ≡ mantissa n
      whole = omega arith

  amount_large : 3 < exponent n → exponent n ≤ 32 → Expands n (mantissa n * 256 ^ (exponent n - 3))
  amount_large lo hi =
      Expands-stored n (mantissa n * 256 ^ (exponent n - 3)) (large_bytes (exponent n) (mantissa n))
        (compact_large n positive nonzero lo hi
          ∙ ap expand (store_large-large_bytes (exponent n) (mantissa n) (omega arith) hi))
        (length-large_bytes (exponent n) (mantissa n) (omega arith) hi)
        (large_bytes-AreBytes (exponent n) (mantissa n) (omega arith) hi)
        (be_value-large_bytes (exponent n) (mantissa n) (omega arith) hi (omega arith))

  -- A compact target without the sign bit, with a mantissa that is not zero and an exponent from 3
  -- to 32, expands without a fault to eight words that stand for mantissa * 256 ^ (exponent - 3).
  pub compact_to_target-amount :
      3 ≤ exponent n → exponent n ≤ 32 → Expands n (mantissa n * 256 ^ (exponent n - 3))
  compact_to_target-amount lo hi = elim (dec_le (exponent n) 3) [
    | yes le ↦
        let e : exponent n ≡ 3 = omega arith in
        let v : mantissa n * 256 ^ (3 - 3) ≡ mantissa n = omega arith in rw (e, v) (amount_three e)
    | no gt ↦ amount_large (omega arith) hi
  ]

  amount_two : exponent n ≡ 2 → Expands n (mantissa n / 2 ^ 16)
  amount_two h =
      Expands-stored n (mantissa n / 2 ^ 16)
        (replicate 30 0 ++ (top (mantissa n / 2 ^ 8) ∷ mid (mantissa n / 2 ^ 8) ∷ []))
        (small_at 2 h (omega arith) ∙ ap expand (store_small_two (mantissa n))) refl (omega arith)
        two_bytes
    where
      two_bytes :
          be_value (replicate 30 0 ++ (top (mantissa n / 2 ^ 8) ∷ mid (mantissa n / 2 ^ 8) ∷ []))
          ≡ mantissa n / 2 ^ 16
      two_bytes =
          unfold be_value in
          omega (
            arith,
            and_mask 8 (mantissa n / 2 ^ 8 / 2 ^ 16),
            and_mask 8 (mantissa n / 2 ^ 8 / 2 ^ 8),
          )

  amount_one : exponent n ≡ 1 → Expands n 0
  amount_one h =
      Expands-stored n 0 (replicate 31 0 ++ (top (mantissa n / 2 ^ 16) ∷ []))
        (small_at 1 h (omega arith) ∙ ap expand (store_small_one (mantissa n))) refl (omega arith)
        one_byte
    where
      one_byte : be_value (replicate 31 0 ++ (top (mantissa n / 2 ^ 16) ∷ [])) ≡ 0
      one_byte = unfold be_value in omega (arith, and_mask 8 (mantissa n / 2 ^ 16 / 2 ^ 16))

  -- A compact target without the sign bit, with a mantissa that is not zero and an exponent of 1
  -- or 2, expands to mantissa / 256 ^ (4 - exponent), one byte less than the compact format's
  -- mantissa / 256 ^ (3 - exponent).
  pub compact_to_target-amount_small :
      1 ≤ exponent n → exponent n ≤ 2 → Expands n (mantissa n / 256 ^ (4 - exponent n))
  compact_to_target-amount_small lo hi = elim (dec_le (exponent n) 1) [
    | yes le ↦
        let e : exponent n ≡ 1 = omega arith in
        let v : mantissa n / 256 ^ (4 - 1) ≡ 0 = omega arith in rw (e, v) (amount_one e)
    | no gt ↦
        let e : exponent n ≡ 2 = omega arith in
        let v : mantissa n / 256 ^ (4 - 2) ≡ mantissa n / 2 ^ 16 = omega arith in
        rw (e, v) (amount_two e)
  ]

  -- A compact target without the sign bit, with a mantissa that is not zero and the exponent 0,
  -- makes the expansion store outside its array of 32 bytes.
  pub compact_to_target_zero_exponent : exponent n ≡ 0 → compact_to_target_u32_le n ≡ out_of_bounds
  unfolding expand
  compact_to_target_zero_exponent h =
      small_at 0 h (omega arith) ∙ ap expand (store_small_zero (mantissa n))

  pub compact_to_target_overflow : 32 < exponent n → Expands n (2 ^ 256 - 1)
  compact_to_target_overflow h = record {
    words = replicate 8 0xFFFFFFFF;
    returns = compact_max n positive nonzero h;
    eight = refl;
    value = unfold be_value le_u32_words_to_be32_bytes be_bytes bswap32 in refl;
  }

Expands-zero : (n : ℕ) → (sign n ≢ 0) ⊎ (mantissa n ≡ 0) → Expands n 0
Expands-zero n h = record {
  words = replicate 8 0;
  returns = compact_zero n h;
  eight = refl;
  value = unfold be_value le_u32_words_to_be32_bytes be_bytes bswap32 in refl;
}
