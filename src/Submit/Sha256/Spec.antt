-- ===== src/Submit/Sha256/Spec.antt =====
-- What SHA-256 is, apart from the context of src/submit/cpu_verify.cc: the whole message padded to
-- blocks of 64 bytes, and the compression function folded over them.
use btc_multipool_cache_mine.Base.{
  ℕ, zero, suc, ◌-◌, ◌*◌, ◌/◌, ◌%◌, List, [], ◌∷◌, ◌++◌, u8, ◌>>>◌, length, take, drop, replicate,
  if◌then◌else◌, ltb,
}
use btc_multipool_cache_mine.Submit.Sha256.{initial_state}
use btc_multipool_cache_mine.Submit.Sha256.Transform.{transform, digest}

-- A 64-bit number, the most significant byte first.
abbrev pub be64 : ℕ → List ℕ
be64 n =
    u8 (n >>> 56)
    ∷ u8 (n >>> 48)
    ∷ u8 (n >>> 40)
    ∷ u8 (n >>> 32)
    ∷ u8 (n >>> 24)
    ∷ u8 (n >>> 16)
    ∷ u8 (n >>> 8)
    ∷ u8 n
    ∷ []

-- The eight bytes that the source stores instead.
unfoldable pub length_bytes : ℕ → List ℕ
length_bytes n =
    0
    ∷ u8 (n >>> 56)
    ∷ u8 (n >>> 48)
    ∷ u8 (n >>> 32)
    ∷ u8 (n >>> 24)
    ∷ u8 (n >>> 16)
    ∷ u8 (n >>> 8)
    ∷ u8 n
    ∷ []

-- The first `k` blocks of a message.
unfoldable pub compress_all : ℕ → List ℕ → List ℕ → List ℕ
compress_all zero state bytes = state
compress_all (suc k) state bytes = compress_all k (transform state (take 64 bytes)) (drop 64 bytes)

-- The zeros between the mark and the length of a message of `n` bytes.
unfoldable pub zeros : ℕ → ℕ
zeros n = (119 - n % 64) % 64

unfoldable pub pad : List ℕ → List ℕ
pad bytes = bytes ++ (0x80 ∷ (replicate (zeros (length bytes)) 0 ++ be64 (length bytes * 8)))

-- SHA-256 as the standard defines it.
unfoldable pub standard : List ℕ → List ℕ
standard bytes =
    let padded = pad bytes in digest (compress_all (length padded / 64) initial_state padded)

-- The last one or two blocks, for a rest of fewer than 64 bytes and the number of bits.
unfoldable pub finish : List ℕ → List ℕ → ℕ → List ℕ
finish state rest bits =
    if ltb (length rest) 56
    then digest
        (transform state (rest ++ (0x80 ∷ (replicate (55 - length rest) 0 ++ length_bytes bits))))
    else digest (
        transform (transform state (rest ++ (0x80 ∷ replicate (63 - length rest) 0)))
          (replicate 56 0 ++ length_bytes bits))
