-- ===== src/Normalize/Targets/Stored.antt =====
-- The bytes that `compactToTargetU32LE` of src/normalize/targets.cc stores, and their number.
use btc_multipool_cache_mine.Base.{
  ℕ, zero, suc, ◌+◌, ◌-◌, ◌*◌, ◌^◌, ◌<◌, ◌≤◌, ◌≡◌, refl, ap, ◌∙◌, bit_and, List, [], ◌∷◌, ◌++◌,
  arith, length, replicate, set, set-append, length-append, length-replicate, replicate-add, u8,
  ◌>>>◌, AreBytes, All-append,
}
use native.Mathlib.Nat.{pow-suc}
use btc_multipool_cache_mine.Base.Bits.{and_mask}
use btc_multipool_cache_mine.Base.Checked.{ok, store, store_in_range}
use btc_multipool_cache_mine.Base.Value.{be_value, be_value-append, be_value-replicate}
use btc_multipool_cache_mine.Normalize.Endian.{be32_bytes_to_le_u32_words}
use btc_multipool_cache_mine.Normalize.Endian.Roundtrip.{
  le_u32_words_to_be32_bytes-be32_bytes_to_le_u32_words,
}
use btc_multipool_cache_mine.Normalize.Targets.{
  set_from_big_endian_bytes, store_large, expand, compact_to_target_u32_le,
}
use btc_multipool_cache_mine.Normalize.Targets.Expand.{
  set_from_big_endian_bytes-be32_bytes_to_le_u32_words,
}
use btc_multipool_cache_mine.Submit.HashTarget.Order.{target_value}

-- `nbits` expands to eight words, and they stand for `v`.
pub record Expands (nbits v : ℕ) : Type 0 where
  pub words : List ℕ
  pub returns : compact_to_target_u32_le nbits ≡ ok words
  pub eight : length words ≡ 8
  pub value : target_value words ≡ v

length-words :
    (k : ℕ) (bs : List ℕ) → length bs ≡ 4 * k → length (be32_bytes_to_le_u32_words bs) ≡ k
unfolding be32_bytes_to_le_u32_words
length-words zero [] h = refl
length-words zero (a ∷ bs) h = absurd (omega arith)
length-words (suc k) (a ∷ b ∷ c ∷ d ∷ bs) h = ap suc (length-words k bs (omega arith))
length-words (suc k) [] h = absurd (omega arith)
length-words (suc k) (a ∷ []) h = absurd (omega arith)
length-words (suc k) (a ∷ b ∷ []) h = absurd (omega arith)
length-words (suc k) (a ∷ b ∷ c ∷ []) h = absurd (omega arith)

-- From the 32 bytes that were stored.
pub Expands-stored :
    (nbits v : ℕ) (bs : List ℕ)
    → compact_to_target_u32_le nbits ≡ expand (ok bs)
    → length bs ≡ 32
    → AreBytes bs
    → be_value bs ≡ v
    → Expands nbits v
unfolding expand
Expands-stored nbits v bs e l a h = record {
  words = set_from_big_endian_bytes bs;
  returns = e;
  eight = rw (set_from_big_endian_bytes-be32_bytes_to_le_u32_words bs) (length-words 8 bs l);
  value =
      rw (set_from_big_endian_bytes-be32_bytes_to_le_u32_words bs)
        (ap be_value (le_u32_words_to_be32_bytes-be32_bytes_to_le_u32_words 8 bs l a) ∙ h);
}

store_behind :
    (p r : List ℕ) (i j v : ℕ)
    → i ≡ length p + j
    → j < length r
    → store (p ++ r) i v ≡ ok (p ++ set r j v)
store_behind p r i j v e h =
    store_in_range (p ++ r) i v (omega (arith, length-append p r)) ∙ ap ok (set-append p r j i v e)

be_value_three :
    (a b c : ℕ) (r : List ℕ)
    → be_value (a ∷ b ∷ c ∷ r) ≡ (a * 2 ^ 16 + b * 2 ^ 8 + c) * 256 ^ length r + be_value r
unfolding be_value
be_value_three a b c r = rw (pow-suc 256 (suc (length r)), pow-suc 256 (length r)) (omega arith)

-- Three bytes of a mantissa, the most significant first.
abbrev pub top : ℕ → ℕ
top m = u8 (bit_and (m >>> 16) 0xFF)

abbrev pub mid : ℕ → ℕ
mid m = u8 (bit_and (m >>> 8) 0xFF)

abbrev pub low : ℕ → ℕ
low m = u8 (bit_and m 0xFF)

three_bytes : (m : ℕ) → m < 2 ^ 24 → top m * 2 ^ 16 + mid m * 2 ^ 8 + low m ≡ m
three_bytes m h = omega (arith, and_mask 8 (m >>> 16), and_mask 8 (m >>> 8), and_mask 8 m)

abbrev pub large_bytes : ℕ → ℕ → List ℕ
large_bytes e m = replicate (32 - e) 0 ++ (top m ∷ mid m ∷ low m ∷ replicate (e - 3) 0)

zeros-split :
    (e : ℕ)
    → 3 ≤ e
    → e ≤ 32
    → replicate {A = ℕ} 32 0 ≡ replicate (32 - e) 0 ++ (0 ∷ 0 ∷ 0 ∷ replicate (e - 3) 0)
zeros-split e lo hi = replicate-add (32 - e) (suc (suc (suc (e - 3)))) 32 0 (omega arith)

pub store_large-large_bytes :
    (e m : ℕ) → 3 ≤ e → e ≤ 32 → store_large (32 - e) m (replicate 32 0) ≡ ok (large_bytes e m)
unfolding store_large
store_large-large_bytes e m lo hi = rw (
  zeros-split e lo hi,
  store_behind front (0 ∷ 0 ∷ 0 ∷ back) (32 - e) 0 (top m) (omega (arith, at)) (omega arith),
  store_behind front (top m ∷ 0 ∷ 0 ∷ back) (32 - e + 1) 1 (mid m) (omega (arith, at))
      (omega arith),
  store_behind front (top m ∷ mid m ∷ 0 ∷ back) (32 - e + 2) 2 (low m) (omega (arith, at))
      (omega arith),
)
  where
    front : List ℕ
    front = replicate (32 - e) 0

    back : List ℕ
    back = replicate (e - 3) 0

    at : length front ≡ 32 - e
    at = length-replicate (32 - e) 0

zeros-AreBytes : (k : ℕ) → AreBytes (replicate k 0)
zeros-AreBytes zero = tt
zeros-AreBytes (suc k) = (omega arith, zeros-AreBytes k)

module _ (e m : ℕ) (lo : 3 ≤ e) (hi : e ≤ 32) where
  pub length-large_bytes : length (large_bytes e m) ≡ 32
  length-large_bytes = omega (
    arith,
    length-append (replicate (32 - e) 0) (top m ∷ mid m ∷ low m ∷ replicate (e - 3) 0),
    length-replicate {A = ℕ} (32 - e) 0,
    length-replicate {A = ℕ} (e - 3) 0,
  )

  pub be_value-large_bytes : m < 2 ^ 24 → be_value (large_bytes e m) ≡ m * 256 ^ (e - 3)
  be_value-large_bytes small =
      rw
        (
          be_value-append (replicate (32 - e) 0) (top m ∷ mid m ∷ low m ∷ replicate (e - 3) 0),
          be_value-replicate (32 - e),
          be_value_three (top m) (mid m) (low m) (replicate (e - 3) 0),
          be_value-replicate (e - 3),
          length-replicate {A = ℕ} (e - 3) 0,
          three_bytes m small,
        )
        (omega arith)

  pub large_bytes-AreBytes : AreBytes (large_bytes e m)
  large_bytes-AreBytes =
      All-append (λ b. b < 2 ^ 8) (replicate (32 - e) 0)
        (top m ∷ mid m ∷ low m ∷ replicate (e - 3) 0) (zeros-AreBytes (32 - e))
        (omega arith, (omega arith, (omega arith, zeros-AreBytes (e - 3))))
