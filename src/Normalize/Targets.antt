-- ===== src/Normalize/Targets.antt =====
-- src/normalize/targets.cc: the compact form of a target, expanded to eight words. A store outside
-- `be[32]` is a fault.
pub mod Expand
pub mod Stored
pub mod Amount
use btc_multipool_cache_mine.Base.{
  ℕ, ◌+◌, ◌-◌, ◌*◌, bit_and, bit_or, List, [], ◌∷◌, Bool, true, false, not, u8, u32, ◌<<<◌, ◌>>>◌,
  replicate, if◌then◌else◌, ltb, leb, ◌==◌,
}
use btc_multipool_cache_mine.Base.Checked.{Checked, ok, store, ◌>>=◌}
use btc_multipool_cache_mine.Normalize.Endian.{be_word}

-- The word of four bytes, stored as a little-endian word.
unfoldable pub set_from_big_endian_bytes : List ℕ → List ℕ
unfolding be_word
set_from_big_endian_bytes (a ∷ b ∷ c ∷ d ∷ rest) =
    let w = be_word a b c d in
    bit_or
      (bit_or (bit_or (u32 (bit_and w 0x000000FF <<< 24)) (u32 (bit_and w 0x0000FF00 <<< 8)))
        (bit_and w 0x00FF0000 >>> 8))
      (bit_and w 0xFF000000 >>> 24)
    ∷ set_from_big_endian_bytes rest
set_from_big_endian_bytes _ = []

-- The stores of an exponent of at most 3 bytes.
unfoldable pub store_small : ℕ → ℕ → List ℕ → Checked (List ℕ)
store_small bytes mantissa be = do
  let m = mantissa >>> (8 * (3 - bytes))
  be1 ← store be (32 - bytes) (u8 (bit_and (m >>> 16) 0xFF))
  be2 ← if leb 2 bytes then store be1 (32 - bytes + 1) (u8 (bit_and (m >>> 8) 0xFF)) else ok be1
  if leb 3 bytes then store be2 (32 - bytes + 2) (u8 (bit_and m 0xFF)) else ok be2

-- The stores of a longer exponent, from index `idx`.
unfoldable pub store_large : ℕ → ℕ → List ℕ → Checked (List ℕ)
store_large idx mantissa be = do
  be1 ← store be idx (u8 (bit_and (mantissa >>> 16) 0xFF))
  be2 ← store be1 (idx + 1) (u8 (bit_and (mantissa >>> 8) 0xFF))
  store be2 (idx + 2) (u8 (bit_and mantissa 0xFF))

unfoldable pub expand : Checked (List ℕ) → Checked (List ℕ)
expand stored = do be ← stored; ok (set_from_big_endian_bytes be)

unfoldable pub compact_to_target_u32_le : ℕ → Checked (List ℕ)
compact_to_target_u32_le nbits =
    let exponent = nbits >>> 24 in
    let mantissa = bit_and nbits 0x007fffff in
    let be : List ℕ = replicate 32 0 in
    if not (bit_and nbits 0x00800000 == 0)
    then ok (replicate 8 0)
    else if mantissa == 0
    then ok (replicate 8 0)
    else if leb exponent 3
    then expand (store_small exponent mantissa be)
    else if ltb 32 exponent
    then ok (replicate 8 0xFFFFFFFF)
    else expand (store_large (32 - exponent) mantissa be)
