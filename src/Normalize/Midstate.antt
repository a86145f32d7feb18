-- ===== src/Normalize/Midstate.antt =====
-- src/normalize/midstate.cc: SHA-256 in two steps, the state after the first 64 bytes and the rest
-- of the message from that state. The file has its own copy of the constants and of the compression
-- function, the same text as in src/submit/cpu_verify.cc.
pub mod Correct
use btc_multipool_cache_mine.Base.{
  ℕ, zero, suc, ◌+◌, ◌*◌, List, [], ◌++◌, u64, length, take, drop, set, replicate, ltb,
  if◌then◌else◌,
}
use btc_multipool_cache_mine.Submit.Sha256.{initial_state, put_bitlen, clear_front}
use btc_multipool_cache_mine.Submit.Sha256.Transform.{digest}
use btc_multipool_cache_mine.Submit.Sha256.Transform

abbrev pub transform : List ℕ → List ℕ → List ℕ
transform state block = Transform.transform state block

unfoldable pub sha256_midstate_64 : List ℕ → List ℕ
sha256_midstate_64 first64 = transform initial_state first64

-- `while (rem >= 64)`, on fuel: the state, and the bytes that are left.
unfoldable pub full_blocks : ℕ → List ℕ → List ℕ → List ℕ × List ℕ
full_blocks zero state tail = (state, tail)
full_blocks (suc fuel) state tail =
    let more = full_blocks fuel (transform state (take 64 tail)) (drop 64 tail) in
    if ltb (length tail) 64 then (state, tail) else more

-- `memcpy(block, bytes, n)`.
unfoldable pub copy_front : List ℕ → List ℕ → List ℕ
copy_front bytes block = bytes ++ drop (length bytes) block

-- The state and the block after the padding, before the length is stored.
unfoldable pub pad_rest : List ℕ → List ℕ → List ℕ × List ℕ
pad_rest state rest =
    let block = set (copy_front rest (replicate 64 0)) (length rest) 0x80 in
    if ltb (length rest) 56 then (state, block) else (transform state block, replicate 64 0)

unfoldable pub sha256_finish_from_midstate : List ℕ → List ℕ → ℕ → List ℕ
sha256_finish_from_midstate midstate tail total_len_bytes =
    let (state, rest) = full_blocks (length tail) midstate tail in
    let (last, block) = pad_rest state rest in
    digest (transform last (put_bitlen block (u64 (total_len_bytes * 8))))
