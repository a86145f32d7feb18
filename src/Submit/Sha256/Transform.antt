-- ===== src/Submit/Sha256/Transform.antt =====
-- The compression function of SHA-256 and the big-endian output, src/submit/cpu_verify.cc.
use btc_multipool_cache_mine.Base.{
  ℕ, zero, suc, ◌+◌, ◌-◌, bit_and, bit_or, bit_xor, List, [], ◌∷◌, ◌++◌, u32, ◌<<<◌, ◌>>>◌, get_or,
}
use mathlib.Core.List.{reverse}
use btc_multipool_cache_mine.Normalize.Endian.{be_word, be_bytes}

-- The round constants.
abbrev pub k_table : List ℕ
k_table =
    0x428a2f98 ∷ 0x71374491 ∷ 0xb5c0fbcf ∷ 0xe9b5dba5 ∷ 0x3956c25b ∷ 0x59f111f1 ∷ 0x923f82a4
    ∷ 0xab1c5ed5 ∷ 0xd807aa98 ∷ 0x12835b01 ∷ 0x243185be ∷ 0x550c7dc3 ∷ 0x72be5d74 ∷ 0x80deb1fe
    ∷ 0x9bdc06a7 ∷ 0xc19bf174 ∷ 0xe49b69c1 ∷ 0xefbe4786 ∷ 0x0fc19dc6 ∷ 0x240ca1cc ∷ 0x2de92c6f
    ∷ 0x4a7484aa ∷ 0x5cb0a9dc ∷ 0x76f988da ∷ 0x983e5152 ∷ 0xa831c66d ∷ 0xb00327c8 ∷ 0xbf597fc7
    ∷ 0xc6e00bf3 ∷ 0xd5a79147 ∷ 0x06ca6351 ∷ 0x14292967 ∷ 0x27b70a85 ∷ 0x2e1b2138 ∷ 0x4d2c6dfc
    ∷ 0x53380d13 ∷ 0x650a7354 ∷ 0x766a0abb ∷ 0x81c2c92e ∷ 0x92722c85 ∷ 0xa2bfe8a1 ∷ 0xa81a664b
    ∷ 0xc24b8b70 ∷ 0xc76c51a3 ∷ 0xd192e819 ∷ 0xd6990624 ∷ 0xf40e3585 ∷ 0x106aa070 ∷ 0x19a4c116
    ∷ 0x1e376c08 ∷ 0x2748774c ∷ 0x34b0bcb5 ∷ 0x391c0cb3 ∷ 0x4ed8aa4a ∷ 0x5b9cca4f ∷ 0x682e6ff3
    ∷ 0x748f82ee ∷ 0x78a5636f ∷ 0x84c87814 ∷ 0x8cc70208 ∷ 0x90befffa ∷ 0xa4506ceb ∷ 0xbef9a3f7
    ∷ 0xc67178f2 ∷ []

unfoldable pub rotr : ℕ → ℕ → ℕ
rotr x n = bit_or (x >>> n) (u32 (x <<< (32 - n)))

-- `m[0..16)`: the block as big-endian words.
unfoldable pub load_words : List ℕ → List ℕ
load_words (a ∷ b ∷ c ∷ d ∷ rest) = be_word a b c d ∷ load_words rest
load_words _ = []

-- The words so far, the latest first, so that `m[i - k]` has the index `k - 1`.
unfoldable pub next_word : List ℕ → ℕ
unfolding rotr
next_word m =
    let m15 = get_or m 14 0 in
    let m2 = get_or m 1 0 in
    let s0 = bit_xor (bit_xor (rotr m15 7) (rotr m15 18)) (m15 >>> 3) in
    let s1 = bit_xor (bit_xor (rotr m2 17) (rotr m2 19)) (m2 >>> 10) in
    u32 (get_or m 15 0 + s0 + get_or m 6 0 + s1)

unfoldable pub extend_words : ℕ → List ℕ → List ℕ
unfolding next_word
extend_words zero m = m
extend_words (suc left) m = extend_words left (next_word m ∷ m)

-- The working variables.
pub record Vars : Type 0 where
  pub a : ℕ
  pub b : ℕ
  pub c : ℕ
  pub d : ℕ
  pub e : ℕ
  pub f : ℕ
  pub g : ℕ
  pub h : ℕ

unfoldable pub round_step : Vars → ℕ → ℕ → Vars
unfolding rotr
round_step v k m =
    let s1 = bit_xor (bit_xor (rotr v.e 6) (rotr v.e 11)) (rotr v.e 25) in
    let ch = bit_xor (bit_and v.e v.f) (bit_and (bit_xor v.e 0xffffffff) v.g) in
    let temp1 = u32 (v.h + s1 + ch + k + m) in
    let s0 = bit_xor (bit_xor (rotr v.a 2) (rotr v.a 13)) (rotr v.a 22) in
    let maj = bit_xor (bit_xor (bit_and v.a v.b) (bit_and v.a v.c)) (bit_and v.b v.c) in
    let temp2 = u32 (s0 + maj) in
    record {
      a = u32 (temp1 + temp2);
      b = v.a;
      c = v.b;
      d = v.c;
      e = u32 (v.d + temp1);
      f = v.e;
      g = v.f;
      h = v.g;
    }

unfoldable pub rounds : Vars → List ℕ → List ℕ → Vars
unfolding round_step
rounds v (k ∷ ks) (m ∷ ms) = rounds (round_step v k m) ks ms
rounds v _ _ = v

-- The new state of the context after a block of 64 bytes.
unfoldable pub transform : List ℕ → List ℕ → List ℕ
unfolding load_words extend_words rounds be_word
transform state block =
    let v : Vars = record {
      a = get_or state 0 0;
      b = get_or state 1 0;
      c = get_or state 2 0;
      d = get_or state 3 0;
      e = get_or state 4 0;
      f = get_or state 5 0;
      g = get_or state 6 0;
      h = get_or state 7 0;
    } in
    let w = rounds v k_table (reverse (extend_words 48 (reverse (load_words block)))) in
    u32 (v.a + w.a)
    ∷ u32 (v.b + w.b)
    ∷ u32 (v.c + w.c)
    ∷ u32 (v.d + w.d)
    ∷ u32 (v.e + w.e)
    ∷ u32 (v.f + w.f)
    ∷ u32 (v.g + w.g)
    ∷ u32 (v.h + w.h)
    ∷ []

-- The words of the state as big-endian bytes.
unfoldable pub digest : List ℕ → List ℕ
unfolding be_bytes
digest [] = []
digest (w ∷ ws) = be_bytes w ++ digest ws
