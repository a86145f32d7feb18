-- ===== src/Cuda/DeviceRing/Slices.antt =====
-- Reading a ring by at most two copies, as `drainDeviceHits` of src/cuda/engine.cu does.
use btc_multipool_cache_mine.Base.{
  ℕ, zero, suc, ◌+◌, ◌-◌, ◌%◌, ◌<◌, ◌≤◌, ◌≡◌, refl, sym, ap, ap₂, ◌∙◌, List, [], ◌∷◌, ◌++◌,
  append-nil, arith, length, take, drop, get_or, lt→ltb, le→ltb, take_exact, drop_exact, min,
}
use native.Mathlib.Decide.{dec_lt}
use native.Mathlib.Nat.{mod-lt, mod-eq_of_lt, mod_self}
use btc_multipool_cache_mine.Base.Checked.{ok}
use btc_multipool_cache_mine.Cuda.HitRing.{HitRecord, no_hit}
use btc_multipool_cache_mine.Cuda.HitRing.Cells.{read, shift}
use btc_multipool_cache_mine.Cuda.DeviceRing.{copy_out}

module _ (cap : ℕ) where
  abbrev pub reading : List HitRecord → ℕ → ℕ → List HitRecord
  reading cells i k = read no_hit cap cells i k

  pub read_add :
      (cells : List HitRecord) (a b c i : ℕ)
      → c ≡ a + b
      → i < cap
      → reading cells i c ≡ reading cells i a ++ reading cells ((i + a) % cap) b
  unfolding read
  read_add cells zero b c i e h =
      let same : c ≡ b = omega arith in
      let here : (i + 0) % cap ≡ i = ap (λ (t : ℕ). t % cap) (omega arith) ∙ mod-eq_of_lt h in
      rw (same, here)
  read_add cells (suc a) b zero i e h = absurd (omega arith)
  read_add cells (suc a) b (suc c) i e h = ap (◌∷◌ (get_or cells i no_hit)) (
      read_add cells a b c ((i + 1) % cap) (omega arith) (mod-lt (i + 1) (omega arith))
      ∙ ap (λ j. reading cells ((i + 1) % cap) a ++ reading cells j b) (sym (shift no_hit cap i a)))

  pub length-reading : (cells : List HitRecord) (i k : ℕ) → length (reading cells i k) ≡ k
  unfolding read
  length-reading cells i zero = refl
  length-reading cells i (suc k) = ap suc (length-reading cells ((i + 1) % cap) k)

  drop_step :
      (cells : List HitRecord) (i k : ℕ)
      → i < length cells
      → take (suc k) (drop i cells) ≡ get_or cells i no_hit ∷ take k (drop (suc i) cells)
  drop_step [] i k h = absurd (omega arith)
  drop_step (c ∷ cells) zero k h = refl
  drop_step (c ∷ cells) (suc i) k h = drop_step cells i k (omega arith)

  -- Without wrapping, a copy.
  read_copied :
      (cells : List HitRecord) (i k : ℕ)
      → length cells ≡ cap
      → i + k ≤ cap
      → reading cells i k ≡ take k (drop i cells)
  unfolding read
  read_copied cells i zero l h = refl
  read_copied cells i (suc zero) l h = sym (drop_step cells i 0 (omega arith))
  read_copied cells i (suc (suc k)) l h =
      let next : (i + 1) % cap ≡ suc i = mod-eq_of_lt (omega arith) ∙ omega arith in
      rw next (
        ap (◌∷◌ (get_or cells i no_hit)) (read_copied cells (suc i) (suc k) l (omega arith))
        ∙ sym (drop_step cells i (suc k) (omega arith)))

  pub copy_out-read :
      (cells : List HitRecord) (start n : ℕ)
      → length cells ≡ cap
      → start < cap
      → n ≤ cap
      → copy_out cells cap start n ≡ ok (reading cells start n)
  unfolding copy_out
  copy_out-read cells start n l h le = elim (dec_lt n (cap - start)) [
    | yes short ↦
        rw
          (
            lt→ltb n (cap - start) short,
            le→ltb (length cells) (n - n) (omega arith),
            read_copied cells start n l (omega arith),
          )
          (ap ok (none_left (n - n) (omega arith)))
    | no long ↦
        rw
          (
            le→ltb n (cap - start) (omega arith),
            le→ltb (length cells) (n - (cap - start)) (omega arith),
            read_add cells (cap - start) (n - (cap - start)) n start (omega arith) h,
          )
          (ap ok (
            ap₂ ◌++◌ (sym (read_copied cells start (cap - start) l (omega arith))) (
              sym (
                ap (λ j. reading cells j (n - (cap - start))) (around start h)
                ∙ read_copied cells 0 (n - (cap - start)) l (omega arith)))))
  ]
    where
      none_left :
          (k : ℕ) → k ≡ 0 → take n (drop start cells) ++ take k cells ≡ take n (drop start cells)
      none_left k e = rw e (append-nil (take n (drop start cells)))

      around : (i : ℕ) → i < cap → (i + (cap - i)) % cap ≡ 0
      around i h = ap (λ (t : ℕ). t % cap) (omega arith) ∙ mod_self cap

  pub take-reading :
      (cells : List HitRecord) (i a c : ℕ)
      → a ≤ c
      → i < cap
      → take a (reading cells i c) ≡ reading cells i a
  take-reading cells i a c le h =
      ap (take a) (read_add cells a (c - a) c i (omega arith) h)
      ∙ take_exact a (reading cells i a) (reading cells ((i + a) % cap) (c - a))
          (length-reading cells i a)

  pub drop-reading :
      (cells : List HitRecord) (i a c : ℕ)
      → a ≤ c
      → i < cap
      → drop a (reading cells i c) ≡ reading cells ((i + a) % cap) (c - a)
  drop-reading cells i a c le h =
      ap (drop a) (read_add cells a (c - a) c i (omega arith) h)
      ∙ drop_exact a (reading cells i a) (reading cells ((i + a) % cap) (c - a))
          (length-reading cells i a)

-- Cutting a list beyond its end is cutting it at its end.
module _ {A : Type 0} where
  pub take_clipped : (n k : ℕ) (xs : List A) → k ≡ min n (length xs) → take n xs ≡ take k xs
  take_clipped zero k xs e = let e' : k ≡ 0 = omega arith in rw e'
  take_clipped (suc n) k [] e = let e' : k ≡ 0 = omega arith in rw e'
  take_clipped (suc n) zero (x ∷ xs) e = absurd (omega arith)
  take_clipped (suc n) (suc k) (x ∷ xs) e = ap (◌∷◌ x) (take_clipped n k xs (omega arith))

  pub drop_clipped : (n k : ℕ) (xs : List A) → k ≡ min n (length xs) → drop n xs ≡ drop k xs
  drop_clipped zero k xs e = let e' : k ≡ 0 = omega arith in rw e'
  drop_clipped (suc n) k [] e = let e' : k ≡ 0 = omega arith in rw e'
  drop_clipped (suc n) zero (x ∷ xs) e = absurd (omega arith)
  drop_clipped (suc n) (suc k) (x ∷ xs) e = drop_clipped n k xs (omega arith)
