-- ===== src/Submit/Gbt/Digits.antt =====
-- Hexadecimal text read back: what `kHex` of src/submit/gbt_submitter.cc writes.
use btc_multipool_cache_mine.Base.{
  ℕ, zero, suc, ◌+◌, ◌-◌, ◌*◌, ◌/◌, ◌%◌, ◌^◌, ◌<◌, ◌≡◌, refl, List, [], ◌∷◌, ◌++◌, Option, none,
  some, Bool, true, ◌&&◌, arith, if◌then◌else◌, ltb, ◌==◌, ==→eq, bit_and, get_or, length,
}
use native.Mathlib.Decide.{dec_lt}
use btc_multipool_cache_mine.Base.Bits.{and_mask}
use btc_multipool_cache_mine.Submit.Gbt.Hex.{k_hex, hex_byte, bytes_to_hex}

unfoldable pub digit_value : ℕ → ℕ
digit_value c = if ltb c 58 then c - 48 else c - 87

-- The next byte of a text of digits.
unfoldable pub read_byte : List ℕ → Option (ℕ × List ℕ)
read_byte (a ∷ b ∷ rest) = some (digit_value a * 16 + digit_value b, rest)
read_byte _ = none

all_below : ℕ → (ℕ → Bool) → Bool
all_below zero f = true
all_below (suc n) f = f n && all_below n f

all_below-at : (n i : ℕ) (f : ℕ → Bool) → all_below n f ≡ true → i < n → f i ≡ true
unfolding all_below
all_below-at zero i f h lt = absurd (omega arith)
all_below-at (suc n) i f h lt = elim (dec_lt i n) [
  | yes less ↦ all_below-at n i f (ground arith) less
  | no same ↦ let e : i ≡ n = omega arith in rw e (ground arith)
]

digit_value-k_hex : (d : ℕ) → d < 16 → digit_value (get_or k_hex d 0) ≡ d
digit_value-k_hex d h = ==→eq (digit_value (get_or k_hex d 0)) d (
    all_below-at 16 d (λ d. digit_value (get_or k_hex d 0) == d)
      (unfold all_below in unfold digit_value in refl) h)

pub read_byte-hex_byte :
    (b : ℕ) (rest : List ℕ) → b < 256 → read_byte (hex_byte b ++ rest) ≡ some (b, rest)
unfolding read_byte hex_byte
read_byte-hex_byte b rest h =
    let high : bit_and (b / 2 ^ 4) 0xF ≡ b / 16 = omega (arith, and_mask 4 (b / 2 ^ 4)) in
    let low : bit_and b 0xF ≡ b % 16 = omega (arith, and_mask 4 b) in
    let split : b / 16 * 16 + b % 16 ≡ b = omega arith in
    rw (
      high,
      low,
      digit_value-k_hex (b / 16) (omega arith),
      digit_value-k_hex (b % 16) (omega arith),
      split,
    )

pub length-bytes_to_hex : (bs : List ℕ) → length (bytes_to_hex bs) ≡ 2 * length bs
unfolding bytes_to_hex hex_byte
length-bytes_to_hex [] = refl
length-bytes_to_hex (b ∷ bs) = omega (arith, length-bytes_to_hex bs)
