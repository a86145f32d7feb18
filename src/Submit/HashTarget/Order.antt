-- ===== src/Submit/HashTarget/Order.antt =====
-- `isHashLEQTarget` of src/submit/cpu_verify.cc is the order of the numbers.
use btc_multipool_cache_mine.Base.{
  ℕ, ◌*◌, ◌^◌, ◌<◌, ◌≤◌, ◌≡◌, refl, ap, ◌↔◌, List, [], ◌∷◌, ◌++◌, true, arith, length, AreBytes,
  All-append, length-append,
}
use mathlib.Core.Path.{subst}
use btc_multipool_cache_mine.Base.Value.{be_value, be_value-lt, lex_lt}
use btc_multipool_cache_mine.Submit.HashTarget.{target_be, leq_bytes, is_hash_leq_target}
use btc_multipool_cache_mine.Normalize.Endian.{be_bytes, bswap32, le_u32_words_to_be32_bytes}
use btc_multipool_cache_mine.Normalize.Endian.Words.{be_bytes-AreBytes, length-be_bytes}

-- Both routines unpack a target in the same way.
pub target_be-le_u32_words_to_be32_bytes :
    (ws : List ℕ) → target_be ws ≡ le_u32_words_to_be32_bytes ws
unfolding target_be le_u32_words_to_be32_bytes
target_be-le_u32_words_to_be32_bytes [] = refl
target_be-le_u32_words_to_be32_bytes (w ∷ ws) =
    ap (◌++◌ (be_bytes (bswap32 w))) (target_be-le_u32_words_to_be32_bytes ws)

pub leq_bytes_iff :
    (hs ts : List ℕ)
    → length hs ≡ length ts
    → AreBytes hs
    → AreBytes ts
    → (leq_bytes hs ts ≡ true) ↔ (be_value hs ≤ be_value ts)
unfolding leq_bytes be_value
leq_bytes_iff [] [] e a b = (λ _. omega arith, λ _. refl)
leq_bytes_iff [] (t ∷ ts) e a b = absurd (omega arith)
leq_bytes_iff (h ∷ hs) [] e a b = absurd (omega arith)
leq_bytes_iff (h ∷ hs) (t ∷ ts) e a b =
    let same : length hs ≡ length ts = omega arith in
    rw same (
      ground (
        arith,
        leq_bytes_iff hs ts same a.1 b.1,
        lex_lt (256 ^ length ts) h t (be_value hs) (be_value ts),
        lex_lt (256 ^ length ts) t h (be_value ts) (be_value hs),
        be_value-lt ts b.1,
        subst (λ n. be_value hs < 256 ^ n) same (be_value-lt hs a.1),
      ))

pub le_u32_words_to_be32_bytes-AreBytes : (ws : List ℕ) → AreBytes (le_u32_words_to_be32_bytes ws)
unfolding le_u32_words_to_be32_bytes
le_u32_words_to_be32_bytes-AreBytes [] = tt
le_u32_words_to_be32_bytes-AreBytes (w ∷ ws) =
    All-append (λ b. b < 2 ^ 8) (be_bytes (bswap32 w)) (le_u32_words_to_be32_bytes ws)
      (be_bytes-AreBytes (bswap32 w)) (le_u32_words_to_be32_bytes-AreBytes ws)

pub length-le_u32_words_to_be32_bytes :
    (ws : List ℕ) → length (le_u32_words_to_be32_bytes ws) ≡ 4 * length ws
unfolding le_u32_words_to_be32_bytes
length-le_u32_words_to_be32_bytes [] = refl
length-le_u32_words_to_be32_bytes (w ∷ ws) = omega (
  arith,
  length-append (be_bytes (bswap32 w)) (le_u32_words_to_be32_bytes ws),
  length-be_bytes (bswap32 w),
  length-le_u32_words_to_be32_bytes ws,
)

-- The number of a target of eight words.
abbrev pub target_value : List ℕ → ℕ
target_value ws = be_value (le_u32_words_to_be32_bytes ws)

-- For a hash of 32 bytes and a target of 8 words, the comparison is that of the 256-bit numbers
-- that they stand for, the first byte of the hash the most significant.
pub is_hash_leq_target_iff :
    (hash target : List ℕ)
    → length hash ≡ 32
    → AreBytes hash
    → length target ≡ 8
    → (is_hash_leq_target hash target ≡ true) ↔ (be_value hash ≤ target_value target)
unfolding is_hash_leq_target
is_hash_leq_target_iff hash target l a m = rw (target_be-le_u32_words_to_be32_bytes target) (
    leq_bytes_iff hash (le_u32_words_to_be32_bytes target)
      (omega (arith, length-le_u32_words_to_be32_bytes target)) a
      (le_u32_words_to_be32_bytes-AreBytes target))
