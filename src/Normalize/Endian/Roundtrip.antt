-- ===== src/Normalize/Endian/Roundtrip.antt =====
-- The conversions of src/normalize/endianness.h undo one another.
use btc_multipool_cache_mine.Base.{
  ℕ, suc, zero, ◌*◌, ◌^◌, ◌<◌, ◌≡◌, refl, List, [], ◌∷◌, arith, length, AreBytes, AreWords,
}
use btc_multipool_cache_mine.Normalize.Endian.{
  bswap32, be_word, be_bytes, be32_bytes_to_le_u32_words, le_u32_words_to_be32_bytes,
}
use btc_multipool_cache_mine.Normalize.Endian.Words.{
  byte0, byte1, byte2, byte3, bswap32_sum, be_word_sum, be_bytes_lem,
}

pub bswap32-lt : (v : ℕ) → v < 2 ^ 32 → bswap32 v < 2 ^ 32
bswap32-lt v h = omega (arith, bswap32_sum v h)

-- Swapping the four bytes of a 32-bit word twice gives the word back.
pub bswap32-bswap32 : (v : ℕ) → v < 2 ^ 32 → bswap32 (bswap32 v) ≡ v
bswap32-bswap32 v h = omega (arith, bswap32_sum v h, bswap32_sum (bswap32 v) (bswap32-lt v h))

be_word-lt :
    (a b c d : ℕ) → a < 2 ^ 8 → b < 2 ^ 8 → c < 2 ^ 8 → d < 2 ^ 8 → be_word a b c d < 2 ^ 32
be_word-lt a b c d ha hb hc hd = omega (arith, be_word_sum a b c d ha hb hc hd)

be_bytes-be_word :
    (a b c d : ℕ)
    → a < 2 ^ 8
    → b < 2 ^ 8
    → c < 2 ^ 8
    → d < 2 ^ 8
    → be_bytes (be_word a b c d) ≡ a ∷ b ∷ c ∷ d ∷ []
be_bytes-be_word a b c d ha hb hc hd =
    ground (arith, be_bytes_lem (be_word a b c d), be_word_sum a b c d ha hb hc hd)

-- A string of 4 * n bytes, packed into words, is unpacked to the same bytes.
pub le_u32_words_to_be32_bytes-be32_bytes_to_le_u32_words :
    (n : ℕ) (bs : List ℕ)
    → length bs ≡ 4 * n
    → AreBytes bs
    → le_u32_words_to_be32_bytes (be32_bytes_to_le_u32_words bs) ≡ bs
unfolding le_u32_words_to_be32_bytes be32_bytes_to_le_u32_words
le_u32_words_to_be32_bytes-be32_bytes_to_le_u32_words n [] e h = refl
le_u32_words_to_be32_bytes-be32_bytes_to_le_u32_words n (a ∷ []) e h = absurd (omega arith)
le_u32_words_to_be32_bytes-be32_bytes_to_le_u32_words n (a ∷ b ∷ []) e h = absurd (omega arith)
le_u32_words_to_be32_bytes-be32_bytes_to_le_u32_words n (a ∷ b ∷ c ∷ []) e h = absurd (omega arith)
le_u32_words_to_be32_bytes-be32_bytes_to_le_u32_words zero (a ∷ b ∷ c ∷ d ∷ rest) e h =
    absurd (omega arith)
le_u32_words_to_be32_bytes-be32_bytes_to_le_u32_words (suc n) (a ∷ b ∷ c ∷ d ∷ rest) e
      (ha, (hb, (hc, (hd, h)))) =
    rw (
      bswap32-bswap32 (be_word a b c d) (be_word-lt a b c d ha hb hc hd),
      be_bytes-be_word a b c d ha hb hc hd,
      le_u32_words_to_be32_bytes-be32_bytes_to_le_u32_words n rest (omega arith) h,
    )

pub be_word-bytes : (w : ℕ) → w < 2 ^ 32 → be_word (byte3 w) (byte2 w) (byte1 w) (byte0 w) ≡ w
be_word-bytes w h = omega (
  arith,
  be_word_sum (byte3 w) (byte2 w) (byte1 w) (byte0 w) (omega arith) (omega arith) (omega arith)
      (omega arith),
)

-- 32-bit words, unpacked to bytes, are packed into the same words.
pub be32_bytes_to_le_u32_words-le_u32_words_to_be32_bytes :
    (ws : List ℕ) → AreWords ws → be32_bytes_to_le_u32_words (le_u32_words_to_be32_bytes ws) ≡ ws
unfolding le_u32_words_to_be32_bytes be32_bytes_to_le_u32_words
be32_bytes_to_le_u32_words-le_u32_words_to_be32_bytes [] h = refl
be32_bytes_to_le_u32_words-le_u32_words_to_be32_bytes (w ∷ ws) h = rw (
  be_bytes_lem (bswap32 w),
  be_word-bytes (bswap32 w) (bswap32-lt w h.0),
  bswap32-bswap32 w h.0,
  be32_bytes_to_le_u32_words-le_u32_words_to_be32_bytes ws h.1,
)
