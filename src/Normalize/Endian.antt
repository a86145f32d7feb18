-- ===== src/Normalize/Endian.antt =====
-- src/normalize/endianness.h: byte swaps, and the two conversions between 32 bytes and 8 words.
-- An array is a list; the loops over 8 words take four bytes at a time.
pub mod Words
pub mod Roundtrip
use btc_multipool_cache_mine.Base.{
  ℕ, ◌+◌, ◌^◌, bit_and, bit_or, List, [], ◌∷◌, ◌++◌, u8, u32, u64, ◌<<<◌, ◌>>>◌,
}

unfoldable pub bswap32 : ℕ → ℕ
bswap32 v =
    bit_or
      (bit_or (bit_or (u32 (bit_and v 0x000000FF <<< 24)) (u32 (bit_and v 0x0000FF00 <<< 8)))
        (bit_and v 0x00FF0000 >>> 8))
      (bit_and v 0xFF000000 >>> 24)

pub bswap64 : ℕ → ℕ
bswap64 v = bit_or (u64 (bswap32 (u32 v) <<< 32)) (bswap32 (u32 (v >>> 32)))

-- The word of four bytes, the most significant first.
unfoldable pub be_word : ℕ → ℕ → ℕ → ℕ → ℕ
be_word a b c d = bit_or (bit_or (bit_or (u32 (a <<< 24)) (b <<< 16)) (c <<< 8)) d

-- The four bytes of a word, the most significant first.
unfoldable pub be_bytes : ℕ → List ℕ
be_bytes w =
    u8 (bit_and (w >>> 24) 0xFF)
    ∷ u8 (bit_and (w >>> 16) 0xFF)
    ∷ u8 (bit_and (w >>> 8) 0xFF)
    ∷ u8 (bit_and w 0xFF)
    ∷ []

unfoldable pub be32_bytes_to_le_u32_words : List ℕ → List ℕ
be32_bytes_to_le_u32_words (a ∷ b ∷ c ∷ d ∷ rest) =
    bswap32 (be_word a b c d) ∷ be32_bytes_to_le_u32_words rest
be32_bytes_to_le_u32_words _ = []

unfoldable pub le_u32_words_to_be32_bytes : List ℕ → List ℕ
le_u32_words_to_be32_bytes [] = []
le_u32_words_to_be32_bytes (w ∷ rest) = be_bytes (bswap32 w) ++ le_u32_words_to_be32_bytes rest
