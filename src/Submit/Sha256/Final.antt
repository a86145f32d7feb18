-- ===== src/Submit/Sha256/Final.antt =====
-- `sha256_final` of src/submit/cpu_verify.cc: the padding loops and the stores of the length.
use btc_multipool_cache_mine.Base.{
  ℕ, zero, suc, ◌+◌, ◌-◌, ◌*◌, ◌≤◌, ◌<◌, ◌≡◌, refl, sym, ◌∙◌, List, [], ◌∷◌, ◌++◌, append-nil,
  append_assoc, arith, u64, length, drop, drop_all, replicate, set, length-append, set-append,
  length-drop, length-replicate, lt→ltb, le→ltb,
}
use native.Mathlib.Decide.{dec_lt}
use btc_multipool_cache_mine.Submit.Sha256.{
  fill_zero, put_bitlen, clear_front, pad_state, sha256_final,
}
use btc_multipool_cache_mine.Submit.Sha256.Transform.{transform}
use btc_multipool_cache_mine.Submit.Sha256.Spec.{length_bytes, finish}
use btc_multipool_cache_mine.Submit.Sha256.Buffer.{holding}

-- The loop writes its zeros behind the prefix.
pub fill_zero-append :
    (k : ℕ) (q junk : List ℕ) (i : ℕ)
    → i ≡ length q
    → k ≤ length junk
    → fill_zero k i (q ++ junk) ≡ q ++ (replicate k 0 ++ drop k junk)
unfolding fill_zero
fill_zero-append zero q junk i e fits = refl
fill_zero-append (suc k) q [] i e fits = absurd (omega arith)
fill_zero-append (suc k) q (j ∷ junk) i e fits =
    rw (set-append q (j ∷ junk) 0 i 0 (omega arith), ← append_assoc q (0 ∷ []) junk)
      (fill_zero-append k (q ++ 0 ∷ []) junk (i + 1) (omega (arith, length-append q (0 ∷ [])))
          (omega arith)
        ∙ append_assoc q (0 ∷ []) (replicate k 0 ++ drop k junk))

put_eight :
    (q : List ℕ) (a b c d e f g h n : ℕ)
    → length q ≡ 56
    → put_bitlen (q ++ (a ∷ b ∷ c ∷ d ∷ e ∷ f ∷ g ∷ h ∷ [])) n ≡ q ++ length_bytes n
unfolding put_bitlen length_bytes
put_eight q a b c d e f g h n l = rw (
  set-append q _ 7 63 _ (omega arith),
  set-append q _ 6 62 _ (omega arith),
  set-append q _ 5 61 _ (omega arith),
  set-append q _ 4 60 _ (omega arith),
  set-append q _ 3 59 _ (omega arith),
  set-append q _ 2 58 _ (omega arith),
  set-append q _ 1 57 _ (omega arith),
  set-append q _ 0 56 _ (omega arith),
)

-- The last eight bytes of a block become the length.
pub put_bitlen-append :
    (q r : List ℕ) (n : ℕ)
    → length q ≡ 56
    → length r ≡ 8
    → put_bitlen (q ++ r) n ≡ q ++ length_bytes n
put_bitlen-append q (a ∷ b ∷ c ∷ d ∷ e ∷ f ∷ g ∷ h ∷ []) n l m = put_eight q a b c d e f g h n l
put_bitlen-append q (a ∷ b ∷ c ∷ d ∷ e ∷ f ∷ g ∷ h ∷ i ∷ r) n l m = absurd (omega arith)
put_bitlen-append q (a ∷ b ∷ c ∷ d ∷ e ∷ f ∷ g ∷ []) n l m = absurd (omega arith)
put_bitlen-append q (a ∷ b ∷ c ∷ d ∷ e ∷ f ∷ []) n l m = absurd (omega arith)
put_bitlen-append q (a ∷ b ∷ c ∷ d ∷ e ∷ []) n l m = absurd (omega arith)
put_bitlen-append q (a ∷ b ∷ c ∷ d ∷ []) n l m = absurd (omega arith)
put_bitlen-append q (a ∷ b ∷ c ∷ []) n l m = absurd (omega arith)
put_bitlen-append q (a ∷ b ∷ []) n l m = absurd (omega arith)
put_bitlen-append q (a ∷ []) n l m = absurd (omega arith)
put_bitlen-append q [] n l m = absurd (omega arith)

put_bitlen-clear_front :
    (full : List ℕ) (n : ℕ)
    → length full ≡ 64
    → put_bitlen (clear_front 56 full) n ≡ replicate 56 0 ++ length_bytes n
unfolding clear_front
put_bitlen-clear_front full n h =
    put_bitlen-append (replicate 56 0) (drop 56 full) n refl (omega (arith, length-drop 56 full))

-- The mark behind the rest, and zeros behind the mark.
marked :
    (k : ℕ) (p : List ℕ) (j : ℕ) (junk : List ℕ)
    → k ≤ length junk
    → fill_zero k (length p + 1) (set (p ++ j ∷ junk) (length p) 0x80)
      ≡ (p ++ (0x80 ∷ replicate k 0)) ++ drop k junk
marked k p j junk fits =
    rw (set-append p (j ∷ junk) 0 (length p) 0x80 (omega arith), ← append_assoc p (0x80 ∷ []) junk)
      (fill_zero-append k (p ++ 0x80 ∷ []) junk (length p + 1)
          (omega (arith, length-append p (0x80 ∷ []))) fits
        ∙ append_assoc p (0x80 ∷ []) (replicate k 0 ++ drop k junk)
        ∙ sym (append_assoc p (0x80 ∷ replicate k 0) (drop k junk)))

module _ (n : ℕ) (st p : List ℕ) (j : ℕ) (junk : List ℕ)
    (whole : length p + suc (length junk) ≡ 64) where
  abbrev padded : ℕ → List ℕ
  padded k = p ++ (0x80 ∷ replicate k 0)

  length-padded : (k : ℕ) → length (padded k) ≡ length p + suc k
  length-padded k =
      omega (arith, length-append p (0x80 ∷ replicate k 0), length-replicate {A = ℕ} k 0)

  pad_short :
      length p < 56
      → pad_state (holding n st p (j ∷ junk)) ≡ record {
        bitlen = n;
        state = st;
        buf = padded (55 - length p) ++ drop (55 - length p) junk;
        datalen = length p;
      }
  unfolding pad_state
  pad_short h =
      let e : 56 - (length p + 1) ≡ 55 - length p = omega arith in
      rw (lt→ltb (length p) 56 h, e, marked (55 - length p) p j junk (omega arith))

  pad_long :
      56 ≤ length p
      → pad_state (holding n st p (j ∷ junk)) ≡ record {
        bitlen = n;
        state = transform st (padded (63 - length p));
        buf = clear_front 56 (padded (63 - length p));
        datalen = length p;
      }
  unfolding pad_state
  pad_long h =
      let e : 64 - (length p + 1) ≡ 63 - length p = omega arith in
      let e' : drop (63 - length p) junk ≡ [] = drop_all (63 - length p) junk (omega arith) in
      rw (
        le→ltb (length p) 56 h,
        e,
        marked (63 - length p) p j junk (omega arith),
        e',
        append-nil (padded (63 - length p)),
      )

  final_short :
      length p < 56
      → sha256_final (holding n st p (j ∷ junk)) ≡ finish st p (u64 (n + length p * 8))
  unfolding sha256_final finish
  final_short h = rw (
    pad_short h,
    put_bitlen-append (padded (55 - length p)) (drop (55 - length p) junk) (u64 (n + length p * 8))
        (omega (arith, length-padded (55 - length p)))
        (omega (arith, length-drop (55 - length p) junk)),
    lt→ltb (length p) 56 h,
    append_assoc p (0x80 ∷ replicate (55 - length p) 0) (length_bytes (u64 (n + length p * 8))),
  )

  final_long :
      56 ≤ length p
      → sha256_final (holding n st p (j ∷ junk)) ≡ finish st p (u64 (n + length p * 8))
  unfolding sha256_final finish
  final_long h = rw (
    pad_long h,
    put_bitlen-clear_front (padded (63 - length p)) (u64 (n + length p * 8))
        (omega (arith, length-padded (63 - length p))),
    le→ltb (length p) 56 h,
  )

  -- On a context that holds `p`, the padding and the last blocks are those of `finish`.
  final-finish : sha256_final (holding n st p (j ∷ junk)) ≡ finish st p (u64 (n + length p * 8))
  final-finish = elim (dec_lt (length p) 56) [
    | yes h ↦ final_short h
    | no h ↦ final_long (omega arith)
  ]

pub sha256_final-finish :
    (n : ℕ) (st p junk : List ℕ)
    → length p + length junk ≡ 64
    → length p < 64
    → sha256_final (holding n st p junk) ≡ finish st p (u64 (n + length p * 8))
sha256_final-finish n st p [] whole h = absurd (omega arith)
sha256_final-finish n st p (j ∷ junk) whole h = final-finish n st p j junk whole
