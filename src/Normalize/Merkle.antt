-- ===== src/Normalize/Merkle.antt =====
-- src/normalize/merkle.cc: the Merkle root of a list of transaction ids of 32 bytes.
-- The loop runs on fuel: a level of two or more is longer than the next, so its length is enough.
pub mod Tree
use btc_multipool_cache_mine.Base.{
  ℕ, zero, suc, List, [], ◌∷◌, ◌++◌, if◌then◌else◌, ltb, length, replicate,
}
use btc_multipool_cache_mine.Submit.Sha256.{sha256d}

-- The `for` loop: one level from the one below it.
unfoldable pub next_level : List (List ℕ) → List (List ℕ)
next_level [] = []
next_level (a ∷ []) = sha256d (a ++ a) ∷ []
next_level (a ∷ b ∷ rest) = sha256d (a ++ b) ∷ next_level rest

unfoldable pub first_or_zeros : List (List ℕ) → List ℕ
first_or_zeros [] = replicate 32 0
first_or_zeros (x ∷ xs) = x

unfoldable pub level_loop : ℕ → List (List ℕ) → List ℕ
level_loop zero level = first_or_zeros level
level_loop (suc fuel) level =
    let rest = level_loop fuel (next_level level) in
    if ltb 1 (length level) then rest else first_or_zeros level

unfoldable pub compute_merkle_root_be : List (List ℕ) → List ℕ
compute_merkle_root_be txids_be = level_loop (length txids_be) txids_be
