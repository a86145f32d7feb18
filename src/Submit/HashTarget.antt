-- ===== src/Submit/HashTarget.antt =====
-- src/submit/cpu_verify.cc, `isHashLEQTarget`: a hash against a target of eight words.
pub mod Order
use btc_multipool_cache_mine.Base.{ℕ, List, [], ◌∷◌, ◌++◌, Bool, true, false, ltb, if◌then◌else◌}
use btc_multipool_cache_mine.Normalize.Endian.{bswap32, be_bytes}

-- `target_be`: the words' bytes. The swap is written out in the source, as in endianness.h.
unfoldable pub target_be : List ℕ → List ℕ
unfolding bswap32 be_bytes
target_be [] = []
target_be (w ∷ ws) = be_bytes (bswap32 w) ++ target_be ws

-- The loop over the 32 bytes; equal strings are accepted.
unfoldable pub leq_bytes : List ℕ → List ℕ → Bool
leq_bytes (h ∷ hs) (t ∷ ts) = if ltb h t then true else (if ltb t h then false else leq_bytes hs ts)
leq_bytes _ _ = true

unfoldable pub is_hash_leq_target : List ℕ → List ℕ → Bool
unfolding target_be leq_bytes
is_hash_leq_target hash_be target_le = leq_bytes hash_be (target_be target_le)
