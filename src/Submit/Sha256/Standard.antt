-- ===== src/Submit/Sha256/Standard.antt =====
-- `sha256` of src/submit/cpu_verify.cc against SHA-256 as the standard defines it.
use btc_multipool_cache_mine.Base.{
  ℕ, zero, suc, ◌+◌, ◌-◌, ◌*◌, ◌/◌, ◌%◌, ◌^◌, ◌≤◌, ◌<◌, ◌≡◌, refl, sym, ap, ◌∙◌, ◌↔◌, List, ◌∷◌,
  ◌++◌, append_assoc, arith, length, take, drop, replicate, length-append, length-drop,
  length-replicate, take_exact, drop_exact, replicate-add, drop-append_le, take-append_le, take_all,
  drop-drop, lt→ltb, le→ltb,
}
use native.Mathlib.Decide.{dec_lt}
use btc_multipool_cache_mine.Submit.Sha256.{sha256_over, initial_state, put_bitlen}
use btc_multipool_cache_mine.Submit.Sha256.Final.{put_bitlen-append}
use btc_multipool_cache_mine.Submit.Sha256.Transform.{transform, digest}
use btc_multipool_cache_mine.Submit.Sha256.Spec.{
  be64, length_bytes, compress_all, zeros, pad, standard, finish,
}
use btc_multipool_cache_mine.Submit.Sha256.Correct.{sha256_over-finish}

length_bytes-be64_iff : (n : ℕ) → n < 2 ^ 64 → (length_bytes n ≡ be64 n) ↔ (n < 2 ^ 40)
unfolding length_bytes
length_bytes-be64_iff n h = ground arith

-- For a buffer of 64 bytes and a 64-bit number of bits, the stores of `sha256_final` leave the
-- first 56 bytes as they are and put the number behind them, its most significant byte first,
-- exactly where the number is below 2 ^ 40.
pub put_bitlen-be64_iff :
    (q r : List ℕ) (n : ℕ)
    → length q ≡ 56
    → length r ≡ 8
    → n < 2 ^ 64
    → (put_bitlen (q ++ r) n ≡ q ++ be64 n) ↔ (n < 2 ^ 40)
put_bitlen-be64_iff q r n l m h = (
  λ e. (length_bytes-be64_iff n h).0 (
      sym (drop_exact 56 q (length_bytes n) l)
      ∙ ap (drop 56) (sym (put_bitlen-append q r n l m) ∙ e)
      ∙ drop_exact 56 q (be64 n) l),
  λ small. put_bitlen-append q r n l m ∙ ap (λ t. q ++ t) ((length_bytes-be64_iff n h).1 small),
)

compress_all-append :
    (k m c : ℕ) (st bs t : List ℕ)
    → c ≡ k + m
    → 64 * k ≤ length bs
    → compress_all c st (bs ++ t) ≡ compress_all m (compress_all k st bs) (drop (64 * k) bs ++ t)
unfolding compress_all
compress_all-append zero m c st bs t e h = let e' : c ≡ m = omega arith in rw e'
compress_all-append (suc k) m zero st bs t e h = absurd (omega arith)
compress_all-append (suc k) m (suc c) st bs t e h =
    rw
      (
        take-append_le 64 bs t (omega arith),
        drop-append_le 64 bs t (omega arith),
        ← drop-drop (64 * k) 64 (64 * suc k) bs (omega arith),
      )
      (compress_all-append k m c (transform st (take 64 bs)) (drop 64 bs) t (omega arith)
        (omega (arith, length-drop 64 bs)))

length-length_bytes : (bits : ℕ) → length (length_bytes bits) ≡ 8
unfolding length_bytes
length-length_bytes bits = refl

module _ (r : List ℕ) (bits : ℕ) where
  abbrev ending : ℕ → List ℕ
  ending k = r ++ (0x80 ∷ (replicate k 0 ++ length_bytes bits))

  pub length-ending : (k : ℕ) → length (ending k) ≡ length r + k + 9
  length-ending k = omega (
    arith,
    length-append r (0x80 ∷ (replicate k 0 ++ length_bytes bits)),
    length-append (replicate k 0) (length_bytes bits),
    length-replicate {A = ℕ} k 0,
    length-length_bytes bits,
  )

  one_block :
      (st : List ℕ)
      → length r < 56
      → digest (compress_all 1 st (ending (55 - length r))) ≡ finish st r bits
  unfolding compress_all finish
  one_block st h = rw (
    lt→ltb (length r) 56 h,
    take_all 64 (ending (55 - length r)) (omega (arith, length-ending (55 - length r))),
  )

  abbrev full : List ℕ
  full = r ++ (0x80 ∷ replicate (63 - length r) 0)

  split_ending :
      length r < 64 → ending (119 - length r) ≡ full ++ (replicate 56 0 ++ length_bytes bits)
  split_ending lt =
      ap (λ z. r ++ (0x80 ∷ (z ++ length_bytes bits)))
        (replicate-add (63 - length r) 56 (119 - length r) 0 (omega arith))
      ∙ ap (λ z. r ++ (0x80 ∷ z))
          (append_assoc (replicate (63 - length r) 0) (replicate 56 0) (length_bytes bits))
      ∙ sym (
          append_assoc r (0x80 ∷ replicate (63 - length r) 0) (replicate 56 0 ++ length_bytes bits))

  two_blocks :
      (st : List ℕ)
      → 56 ≤ length r
      → length r < 64
      → digest (compress_all 2 st (ending (119 - length r))) ≡ finish st r bits
  unfolding compress_all finish
  two_blocks st h lt = rw (
    le→ltb (length r) 56 h,
    split_ending lt,
    take_exact 64 full last full_64,
    drop_exact 64 full last full_64,
    take_all 64 last (
        omega (
          arith,
          length-append (replicate {A = ℕ} 56 0) (length_bytes bits),
          length-length_bytes bits,
        )),
  )
    where
      last : List ℕ
      last = replicate 56 0 ++ length_bytes bits

      full_64 : length full ≡ 64
      full_64 = omega (
        arith,
        length-append r (0x80 ∷ replicate (63 - length r) 0),
        length-replicate {A = ℕ} (63 - length r) 0,
      )

module _ (bytes : List ℕ) where
  abbrev blocks : ℕ
  blocks = length bytes / 64

  abbrev rest : List ℕ
  rest = drop (64 * blocks) bytes

  abbrev bits : ℕ
  bits = length bytes * 8

  length-rest : length rest + 64 * blocks ≡ length bytes
  length-rest = omega (arith, length-drop (64 * blocks) bytes)

  -- The padded message, with the blocks of the message taken off.
  compress-padded :
      (m k : ℕ)
      → length (ending bytes bits k) / 64 ≡ blocks + m
      → compress_all (length (ending bytes bits k) / 64) initial_state (ending bytes bits k)
        ≡ compress_all m (compress_all blocks initial_state bytes) (ending rest bits k)
  compress-padded m k e =
      compress_all-append blocks m (length (ending bytes bits k) / 64) initial_state bytes
        (0x80 ∷ (replicate k 0 ++ length_bytes bits)) e (omega arith)

  standard-finish :
      bits < 2 ^ 40 → standard bytes ≡ finish (compress_all blocks initial_state bytes) rest bits
  unfolding standard pad zeros
  standard-finish small = elim (dec_lt (length rest) 56) [
    | yes h ↦
        rw
          (
            sym ((length_bytes-be64_iff bits (omega arith)).1 small),
            short_zeros h,
            compress-padded 1 (55 - length rest)
                (omega (arith, length-ending bytes bits (55 - length rest), length-rest)),
          )
          (one_block rest bits (compress_all blocks initial_state bytes) h)
    | no h ↦
        rw
          (
            sym ((length_bytes-be64_iff bits (omega arith)).1 small),
            long_zeros (omega arith),
            compress-padded 2 (119 - length rest)
                (omega (arith, length-ending bytes bits (119 - length rest), length-rest)),
          )
          (two_blocks rest bits (compress_all blocks initial_state bytes) (omega arith)
            (omega (arith, length-rest)))
  ]
    where
      short_zeros : length rest < 56 → (119 - length bytes % 64) % 64 ≡ 55 - length rest
      short_zeros h = omega (arith, length-rest)

      long_zeros : 56 ≤ length rest → (119 - length bytes % 64) % 64 ≡ 119 - length rest
      long_zeros h = omega (arith, length-rest)

-- On a message of fewer than 2 ^ 37 bytes, `sha256` is SHA-256 as the standard defines it: the
-- compression function folded over the padded message, whatever 64 bytes its uninitialised buffer
-- held.
pub sha256_over-standard :
    (garbage bytes : List ℕ)
    → length garbage ≡ 64
    → length bytes < 2 ^ 37
    → sha256_over garbage bytes ≡ standard bytes
sha256_over-standard garbage bytes h small =
    sha256_over-finish garbage bytes h
    ∙ (ap (finish (compress_all (blocks bytes) initial_state bytes) (rest bytes)) (omega arith)
        ∙ sym (standard-finish bytes (omega arith)))
