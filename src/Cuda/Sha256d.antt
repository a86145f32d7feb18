-- ===== src/Cuda/Sha256d.antt =====
-- src/cuda/sha256d.cuh: SHA-256 on the device, on words, for messages of 80 and of 32 bytes.
-- Arrays are lists; the array `w` is kept with its last word first.
pub mod Host
use btc_multipool_cache_mine.Base.{
  ℕ, zero, suc, ◌+◌, ◌-◌, bit_and, bit_or, bit_xor, List, [], ◌∷◌, ◌++◌, u8, u32, ◌<<<◌, ◌>>>◌,
  get_or, take, drop, replicate,
}
use mathlib.Core.List.{reverse}
use btc_multipool_cache_mine.Submit.Sha256.Transform.{Vars}
use btc_multipool_cache_mine.Normalize.Endian.{be_word, be_bytes}

abbrev pub k_sha256_k : List ℕ
k_sha256_k =
    0x428a2f98 ∷ 0x71374491 ∷ 0xb5c0fbcf ∷ 0xe9b5dba5 ∷ 0x3956c25b ∷ 0x59f111f1 ∷ 0x923f82a4
    ∷ 0xab1c5ed5 ∷ 0xd807aa98 ∷ 0x12835b01 ∷ 0x243185be ∷ 0x550c7dc3 ∷ 0x72be5d74 ∷ 0x80deb1fe
    ∷ 0x9bdc06a7 ∷ 0xc19bf174 ∷ 0xe49b69c1 ∷ 0xefbe4786 ∷ 0x0fc19dc6 ∷ 0x240ca1cc ∷ 0x2de92c6f
    ∷ 0x4a7484aa ∷ 0x5cb0a9dc ∷ 0x76f988da ∷ 0x983e5152 ∷ 0xa831c66d ∷ 0xb00327c8 ∷ 0xbf597fc7
    ∷ 0xc6e00bf3 ∷ 0xd5a79147 ∷ 0x06ca6351 ∷ 0x14292967 ∷ 0x27b70a85 ∷ 0x2e1b2138 ∷ 0x4d2c6dfc
    ∷ 0x53380d13 ∷ 0x650a7354 ∷ 0x766a0abb ∷ 0x81c2c92e ∷ 0x92722c85 ∷ 0xa2bfe8a1 ∷ 0xa81a664b
    ∷ 0xc24b8b70 ∷ 0xc76c51a3 ∷ 0xd192e819 ∷ 0xd6990624 ∷ 0xf40e3585 ∷ 0x106aa070 ∷ 0x19a4c116
    ∷ 0x1e376c08 ∷ 0x2748774c ∷ 0x34b0bcb5 ∷ 0x391c0cb3 ∷ 0x4ed8aa4a ∷ 0x5b9cca4f ∷ 0x682e6ff3
    ∷ 0x748f82ee ∷ 0x78a5636f ∷ 0x84c87814 ∷ 0x8cc70208 ∷ 0x90befffa ∷ 0xa4506ceb ∷ 0xbef9a3f7
    ∷ 0xc67178f2 ∷ []

abbrev pub k_sha256_iv : List ℕ
k_sha256_iv =
    0x6a09e667 ∷ 0xbb67ae85 ∷ 0x3c6ef372 ∷ 0xa54ff53a ∷ 0x510e527f ∷ 0x9b05688c ∷ 0x1f83d9ab
    ∷ 0x5be0cd19 ∷ []

unfoldable pub rotr : ℕ → ℕ → ℕ
rotr x n = bit_or (x >>> n) (u32 (x <<< (32 - n)))

unfoldable pub ch : ℕ → ℕ → ℕ → ℕ
ch x y z = bit_xor (bit_and x y) (bit_and (bit_xor x 0xffffffff) z)

unfoldable pub maj : ℕ → ℕ → ℕ → ℕ
maj x y z = bit_xor (bit_xor (bit_and x y) (bit_and x z)) (bit_and y z)

-- `Sig0`, `Sig1`, `sig0` and `sig1`.
unfoldable pub big_sig0 : ℕ → ℕ
unfolding rotr
big_sig0 x = bit_xor (bit_xor (rotr x 2) (rotr x 13)) (rotr x 22)

unfoldable pub big_sig1 : ℕ → ℕ
unfolding rotr
big_sig1 x = bit_xor (bit_xor (rotr x 6) (rotr x 11)) (rotr x 25)

unfoldable pub small_sig0 : ℕ → ℕ
unfolding rotr
small_sig0 x = bit_xor (bit_xor (rotr x 7) (rotr x 18)) (x >>> 3)

unfoldable pub small_sig1 : ℕ → ℕ
unfolding rotr
small_sig1 x = bit_xor (bit_xor (rotr x 17) (rotr x 19)) (x >>> 10)

-- `w[i]` from the words before it, of which `w[i - k]` has the index `k - 1`.
unfoldable pub schedule_word : List ℕ → ℕ
unfolding small_sig0 small_sig1
schedule_word w =
    u32 (small_sig1 (get_or w 1 0) + get_or w 6 0 + small_sig0 (get_or w 14 0) + get_or w 15 0)

unfoldable pub schedule : ℕ → List ℕ → List ℕ
unfolding schedule_word
schedule zero w = w
schedule (suc left) w = schedule left (schedule_word w ∷ w)

unfoldable pub compress_step : Vars → ℕ → ℕ → Vars
unfolding ch maj big_sig0 big_sig1
compress_step v k w =
    let t1 = u32 (v.h + big_sig1 v.e + ch v.e v.f v.g + k + w) in
    let t2 = u32 (big_sig0 v.a + maj v.a v.b v.c) in
    record {
      a = u32 (t1 + t2);
      b = v.a;
      c = v.b;
      d = v.c;
      e = u32 (v.d + t1);
      f = v.e;
      g = v.f;
      h = v.g;
    }

unfoldable pub compress_steps : Vars → List ℕ → List ℕ → Vars
unfolding compress_step
compress_steps v (k ∷ ks) (w ∷ ws) = compress_steps (compress_step v k w) ks ws
compress_steps v _ _ = v

unfoldable pub sha256_compress : List ℕ → List ℕ → List ℕ
unfolding schedule compress_steps
sha256_compress state w0_15 =
    let v : Vars = record {
      a = get_or state 0 0;
      b = get_or state 1 0;
      c = get_or state 2 0;
      d = get_or state 3 0;
      e = get_or state 4 0;
      f = get_or state 5 0;
      g = get_or state 6 0;
      h = get_or state 7 0;
    } in
    let w = compress_steps v k_sha256_k (reverse (schedule 48 (reverse w0_15))) in
    u32 (v.a + w.a)
    ∷ u32 (v.b + w.b)
    ∷ u32 (v.c + w.c)
    ∷ u32 (v.d + w.d)
    ∷ u32 (v.e + w.e)
    ∷ u32 (v.f + w.f)
    ∷ u32 (v.g + w.g)
    ∷ u32 (v.h + w.h)
    ∷ []

-- Bytes as words, four by four, the most significant first; and a state as bytes.
unfoldable pub words_of : List ℕ → List ℕ
unfolding be_word
words_of (a ∷ b ∷ c ∷ d ∷ rest) = be_word a b c d ∷ words_of rest
words_of _ = []

unfoldable pub bytes_of : List ℕ → List ℕ
unfolding be_bytes
bytes_of [] = []
bytes_of (s ∷ rest) = be_bytes s ++ bytes_of rest

-- The second block of a header: its last 16 bytes, the mark, zeros and the length, 640 bits.
unfoldable pub second_block : List ℕ → List ℕ
second_block header80 =
    take 16 (drop 64 header80)
    ++ (0x80 ∷ (replicate 39 0 ++ (0 ∷ 0 ∷ 0 ∷ 0 ∷ 0 ∷ 0 ∷ 2 ∷ 128 ∷ [])))

unfoldable pub sha256_80_be : List ℕ → List ℕ
unfolding sha256_compress words_of bytes_of second_block
sha256_80_be header80 = bytes_of (
    sha256_compress (sha256_compress k_sha256_iv (words_of (take 64 header80)))
      (words_of (second_block header80)))

-- The words of a digest of 32 bytes with its padding, in one block.
unfoldable pub digest_block : List ℕ → List ℕ
unfolding words_of
digest_block t1 = words_of t1 ++ (0x80000000 ∷ (replicate 6 0 ++ 256 ∷ []))

unfoldable pub sha256_32_be : List ℕ → List ℕ
unfolding sha256_compress bytes_of digest_block
sha256_32_be t1 = bytes_of (sha256_compress k_sha256_iv (digest_block t1))

unfoldable pub sha256d_80_be : List ℕ → List ℕ
unfolding sha256_80_be sha256_32_be
sha256d_80_be header80 = sha256_32_be (sha256_80_be header80)
