-- ===== src/Normalize/Endian/Words.antt =====
-- What the shifts and masks of src/normalize/endianness.h compute, as sums of bytes.
use btc_multipool_cache_mine.Base.{
  AreBytes, length, ℕ, ◌+◌, ◌*◌, ◌/◌, ◌%◌, ◌^◌, ◌<◌, bit_and, bit_or, ◌≡◌, ap, ◌∙◌, [], ◌∷◌, arith,
  u32, ◌<<<◌, ◌>>>◌,
}
use btc_multipool_cache_mine.Base.Bits.{or_fields, and_mask, and_field}
use btc_multipool_cache_mine.Normalize.Endian.{bswap32, be_word, be_bytes}

-- The four bytes of a word in the order of a big-endian store.
abbrev pub sum4 : ℕ → ℕ → ℕ → ℕ → ℕ
sum4 a b c d = a * 2 ^ 24 + b * 2 ^ 16 + c * 2 ^ 8 + d

or4 :
    (a b c d : ℕ)
    → b < 2 ^ 8
    → c < 2 ^ 8
    → d < 2 ^ 8
    → bit_or (bit_or (bit_or (a * 2 ^ 24) (b * 2 ^ 16)) (c * 2 ^ 8)) d ≡ sum4 a b c d
or4 a b c d hb hc hd =
    ap (λ x. bit_or (bit_or x (c * 2 ^ 8)) d) (or_fields 24 a (b * 2 ^ 16) (omega arith) ∙ regroup1)
    ∙ ap (λ x. bit_or x d) (or_fields 16 (a * 2 ^ 8 + b) (c * 2 ^ 8) (omega arith) ∙ regroup2)
    ∙ (or_fields 8 ((a * 2 ^ 8 + b) * 2 ^ 8 + c) d hd ∙ regroup3)
  where
    regroup1 : a * 2 ^ 24 + b * 2 ^ 16 ≡ (a * 2 ^ 8 + b) * 2 ^ 16
    regroup1 = omega arith

    regroup2 : (a * 2 ^ 8 + b) * 2 ^ 16 + c * 2 ^ 8 ≡ ((a * 2 ^ 8 + b) * 2 ^ 8 + c) * 2 ^ 8
    regroup2 = omega arith

    regroup3 : ((a * 2 ^ 8 + b) * 2 ^ 8 + c) * 2 ^ 8 + d ≡ sum4 a b c d
    regroup3 = omega arith

pub be_word_sum :
    (a b c d : ℕ) → a < 2 ^ 8 → b < 2 ^ 8 → c < 2 ^ 8 → d < 2 ^ 8 → be_word a b c d ≡ sum4 a b c d
unfolding be_word
be_word_sum a b c d ha hb hc hd =
    ap (λ x. bit_or (bit_or (bit_or x (b * 2 ^ 16)) (c * 2 ^ 8)) d) fits ∙ or4 a b c d hb hc hd
  where
    fits : u32 (a <<< 24) ≡ a * 2 ^ 24
    fits = omega arith

-- Byte `i` of a word.
abbrev pub byte0 : ℕ → ℕ
byte0 v = v % 2 ^ 8

abbrev pub byte1 : ℕ → ℕ
byte1 v = v / 2 ^ 8 % 2 ^ 8

abbrev pub byte2 : ℕ → ℕ
byte2 v = v / 2 ^ 16 % 2 ^ 8

abbrev pub byte3 : ℕ → ℕ
byte3 v = v / 2 ^ 24 % 2 ^ 8

pub be_bytes_lem : (w : ℕ) → be_bytes w ≡ byte3 w ∷ byte2 w ∷ byte1 w ∷ byte0 w ∷ []
unfolding be_bytes
be_bytes_lem w =
    rw (and_mask 8 (w >>> 24), and_mask 8 (w >>> 16), and_mask 8 (w >>> 8), and_mask 8 w)
      (ground arith)

pub bswap32_sum : (v : ℕ) → v < 2 ^ 32 → bswap32 v ≡ sum4 (byte0 v) (byte1 v) (byte2 v) (byte3 v)
unfolding bswap32
bswap32_sum v h =
    rw (low, second, third, top)
      (or4 (byte0 v) (byte1 v) (byte2 v) (byte3 v) (omega arith) (omega arith) (omega arith))
  where
    low : u32 (bit_and v 0x000000FF <<< 24) ≡ byte0 v * 2 ^ 24
    low = omega (arith, and_mask 8 v)

    second : u32 (bit_and v 0x0000FF00 <<< 8) ≡ byte1 v * 2 ^ 16
    second = omega (arith, and_field 8 255 v, and_mask 8 (v / 2 ^ 8))

    third : bit_and v 0x00FF0000 >>> 8 ≡ byte2 v * 2 ^ 8
    third = omega (arith, and_field 16 255 v, and_mask 8 (v / 2 ^ 16))

    top : bit_and v 0xFF000000 >>> 24 ≡ byte3 v
    top = omega (arith, and_field 24 255 v, and_mask 8 (v / 2 ^ 24))

pub be_bytes-AreBytes : (w : ℕ) → AreBytes (be_bytes w)
be_bytes-AreBytes w = rw (be_bytes_lem w) (omega arith)

pub length-be_bytes : (w : ℕ) → length (be_bytes w) ≡ 4
length-be_bytes w = rw (be_bytes_lem w)
