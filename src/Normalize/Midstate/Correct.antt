-- ===== src/Normalize/Midstate/Correct.antt =====
-- The two steps of src/normalize/midstate.cc against `sha256` of src/submit/cpu_verify.cc.
use btc_multipool_cache_mine.Base.{
  ℕ, zero, suc, ◌+◌, ◌-◌, ◌*◌, ◌/◌, ◌≤◌, ◌<◌, ◌≡◌, refl, sym, ap, ap₂, ◌∙◌, List, ◌∷◌, ◌++◌,
  append_assoc, arith, u64, length, take, drop, set, replicate, length-append, length-drop,
  length-replicate, take_exact, drop_exact, replicate-add, drop-drop, set-append, lt→ltb, le→ltb,
}
use native.Mathlib.Decide.{dec_lt}
use btc_multipool_cache_mine.Submit.Sha256.{initial_state, sha256_over, put_bitlen}
use btc_multipool_cache_mine.Submit.Sha256.Transform.{digest}
use btc_multipool_cache_mine.Submit.Sha256.Spec.{compress_all, finish, length_bytes}
use btc_multipool_cache_mine.Submit.Sha256.Final.{put_bitlen-append}
use btc_multipool_cache_mine.Submit.Sha256.Correct.{sha256_over-finish}
use btc_multipool_cache_mine.Normalize.Midstate.{
  transform, sha256_midstate_64, full_blocks, copy_front, pad_rest, sha256_finish_from_midstate,
}

-- With enough fuel the loop takes every whole block and leaves fewer than 64 bytes.
pub full_blocks-compress_all :
    (k fuel : ℕ) (st tail : List ℕ)
    → k ≤ fuel
    → length tail < 64 * k + 64
    → 64 * k ≤ length tail
    → full_blocks fuel st tail ≡ (compress_all k st tail, drop (64 * k) tail)
unfolding full_blocks compress_all
full_blocks-compress_all zero zero st tail fuels hi lo = refl
full_blocks-compress_all zero (suc fuel) st tail fuels hi lo =
    rw (lt→ltb (length tail) 64 (omega arith))
full_blocks-compress_all (suc k) zero st tail fuels hi lo = absurd (omega arith)
full_blocks-compress_all (suc k) (suc fuel) st tail fuels hi lo = rw (
  le→ltb (length tail) 64 (omega arith),
  full_blocks-compress_all k fuel (transform st (take 64 tail)) (drop 64 tail) (omega arith)
      (omega (arith, length-drop 64 tail)) (omega (arith, length-drop 64 tail)),
  drop-drop (64 * k) 64 (64 * suc k) tail (omega arith),
)

drop-replicate : (a b c : ℕ) → c ≡ a + b → drop a (replicate {A = ℕ} c 0) ≡ replicate b 0
drop-replicate zero b c e = let e' : c ≡ b = omega arith in rw e'
drop-replicate (suc a) b zero e = absurd (omega arith)
drop-replicate (suc a) b (suc c) e = drop-replicate a b c (omega arith)

-- The rest, the mark, and zeros up to the end of the block.
block-marked :
    (rest : List ℕ)
    → length rest < 64
    → set (copy_front rest (replicate 64 0)) (length rest) 0x80
      ≡ rest ++ (0x80 ∷ replicate (63 - length rest) 0)
unfolding copy_front
block-marked rest h = rw (
  drop-replicate (length rest) (suc (63 - length rest)) 64 (omega arith),
  set-append rest (replicate (suc (63 - length rest)) 0) 0 (length rest) 0x80 (omega arith),
)

split_zeros :
    (rest : List ℕ)
    → length rest < 56
    → rest ++ (0x80 ∷ replicate (63 - length rest) 0)
      ≡ (rest ++ (0x80 ∷ replicate (55 - length rest) 0)) ++ replicate 8 0
split_zeros rest h =
    ap (λ z. rest ++ (0x80 ∷ z))
      (replicate-add (55 - length rest) 8 (63 - length rest) 0 (omega arith))
    ∙ sym (append_assoc rest (0x80 ∷ replicate (55 - length rest) 0) (replicate 8 0))

pad_rest-finish :
    (st rest : List ℕ) (n : ℕ)
    → length rest < 64
    → digest (transform (pad_rest st rest).0 (put_bitlen (pad_rest st rest).1 n)) ≡ finish st rest n
unfolding pad_rest finish
pad_rest-finish st rest n h = elim (dec_lt (length rest) 56) [
  | yes short ↦
      rw (lt→ltb (length rest) 56 short, block-marked rest h, split_zeros rest short)
        (ap (λ b. digest (transform st b))
          (put_bitlen-append (rest ++ (0x80 ∷ replicate (55 - length rest) 0)) (replicate 8 0) n
              (omega (
                arith,
                length-append rest (0x80 ∷ replicate (55 - length rest) 0),
                length-replicate {A = ℕ} (55 - length rest) 0,
              ))
              refl
            ∙ append_assoc rest (0x80 ∷ replicate (55 - length rest) 0) (length_bytes n)))
  | no long ↦
      rw (le→ltb (length rest) 56 (omega arith), block-marked rest h)
        (ap
          (λ b.
            digest (transform (transform st (rest ++ (0x80 ∷ replicate (63 - length rest) 0))) b))
          (put_bitlen-append (replicate 56 0) (replicate 8 0) n refl refl))
]

-- From any state, the rest of the message is compressed and finished with the length that is given.
pub sha256_finish_from_midstate-finish :
    (st tail : List ℕ) (total : ℕ)
    → sha256_finish_from_midstate st tail total
      ≡ finish
          (compress_all (length tail / 64) st tail)
          (drop (64 * (length tail / 64)) tail)
          (u64 (total * 8))
unfolding sha256_finish_from_midstate
sha256_finish_from_midstate-finish st tail total =
    rw
      (full_blocks-compress_all (length tail / 64) (length tail) st tail (omega arith) (omega arith)
        (omega arith))
      (pad_rest-finish (compress_all (length tail / 64) st tail)
        (drop (64 * (length tail / 64)) tail) (u64 (total * 8))
        (omega (arith, length-drop (64 * (length tail / 64)) tail)))

compress_all-append :
    (k : ℕ) (st block later : List ℕ)
    → length block ≡ 64
    → compress_all (suc k) st (block ++ later) ≡ compress_all k (transform st block) later
unfolding compress_all
compress_all-append k st block later h =
    ap₂ (λ b l. compress_all k (transform st b) l) (take_exact 64 block later h)
      (drop_exact 64 block later h)

-- For a first block of 64 bytes, any bytes after it, and any 64 bytes that the other routine's
-- buffer held, `sha256_finish_from_midstate` from the state of `sha256_midstate_64`, with the
-- length of the whole message, gives what `sha256` gives on the whole message.
pub finish_from_midstate-sha256_midstate_64 :
    (garbage first64 tail : List ℕ)
    → length garbage ≡ 64
    → length first64 ≡ 64
    → sha256_finish_from_midstate (sha256_midstate_64 first64) tail (64 + length tail)
      ≡ sha256_over garbage (first64 ++ tail)
unfolding sha256_midstate_64
finish_from_midstate-sha256_midstate_64 garbage first64 tail g h =
    sha256_finish_from_midstate-finish (transform initial_state first64) tail (64 + length tail)
    ∙ sym (sha256_over-finish garbage (first64 ++ tail) g ∙ one_block_less)
  where
    whole : length (first64 ++ tail) ≡ 64 + length tail
    whole = omega (arith, length-append first64 tail)

    one_more : (64 + length tail) / 64 ≡ suc (length tail / 64)
    one_more = omega arith

    dropped :
        drop (64 * suc (length tail / 64)) (first64 ++ tail) ≡ drop (64 * (length tail / 64)) tail
    dropped =
        sym (
          drop-drop (64 * (length tail / 64)) 64 (64 * suc (length tail / 64)) (first64 ++ tail)
            (omega arith))
        ∙ ap (drop (64 * (length tail / 64))) (drop_exact 64 first64 tail h)

    one_block_less :
        finish
          (compress_all (length (first64 ++ tail) / 64) initial_state (first64 ++ tail))
          (drop (64 * (length (first64 ++ tail) / 64)) (first64 ++ tail))
          (u64 (length (first64 ++ tail) * 8))
        ≡ finish
            (compress_all (length tail / 64) (transform initial_state first64) tail)
            (drop (64 * (length tail / 64)) tail)
            (u64 ((64 + length tail) * 8))
    one_block_less = rw (
      whole,
      one_more,
      dropped,
      compress_all-append (length tail / 64) initial_state first64 tail h,
    )
