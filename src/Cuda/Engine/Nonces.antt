-- ===== src/Cuda/Engine/Nonces.antt =====
-- The loops of the kernels in src/cuda/engine.cu: which nonces a launch tests.
use btc_multipool_cache_mine.Base.{
  ℕ, zero, suc, ◌+◌, ◌-◌, ◌*◌, ◌^◌, ◌≤◌, ◌<◌, ◌≡◌, refl, sym, ap, ap₂, ◌∙◌, List, [], ◌∷◌, ◌++◌,
  append_assoc, arith, u32, le→leb, lt→leb, ne→==,
}
use native.Mathlib.Decide.{dec_lt}
use btc_multipool_cache_mine.Cuda.Engine.{
  start_nonce, batch_loop, unroll_loop, unroll_thread, chosen_thread, row, launched,
}

module _ {A : Type 0} (at : ℕ → List A) where
  batch_loop_add :
      (a b c start k k' : ℕ)
      → c ≡ a + b
      → k' ≡ k + a
      → batch_loop at start k c ≡ batch_loop at start k a ++ batch_loop at start k' b
  unfolding batch_loop
  batch_loop_add zero b c start k k' e e' =
      let same : c ≡ b = omega arith in let here : k' ≡ k = omega arith in rw (same, here)
  batch_loop_add (suc a) b zero start k k' e e' = absurd (omega arith)
  batch_loop_add (suc a) b (suc c) start k k' e e' =
      ap (◌++◌ (at (u32 (start + k))))
        (batch_loop_add a b c start (k + 1) k' (omega arith) (omega arith))
      ∙ sym (
          append_assoc (at (u32 (start + k))) (batch_loop at start (k + 1) a)
            (batch_loop at start k' b))

  -- Unrolled, with the same test in the tail, the loop is the plain one.
  unroll_loop-batch_loop :
      (unroll fuel start n k : ℕ)
      → 0 < unroll
      → n + unroll < 2 ^ 32
      → k ≤ n
      → n - k < fuel
      → unroll_loop unroll at at start n fuel k ≡ batch_loop at start k (n - k)
  unfolding unroll_loop
  unroll_loop-batch_loop unroll zero start n k pos fits le enough = absurd (omega arith)
  unroll_loop-batch_loop unroll (suc fuel) start n k pos fits le enough =
      let whole : u32 (k + unroll) ≡ k + unroll = omega arith in
      elim (dec_lt n (k + unroll)) [
        | yes last ↦ rw (whole, lt→leb (k + unroll) n last)
        | no more ↦
            rw
              (
                whole,
                le→leb (k + unroll) n (omega arith),
                unroll_loop-batch_loop unroll fuel start n (k + unroll) pos fits (omega arith)
                    (omega arith),
              )
              (sym (
                batch_loop_add unroll (n - (k + unroll)) (n - k) start k (k + unroll) (omega arith)
                  refl))
      ]

  unroll_thread-batch_loop :
      (unroll start n : ℕ)
      → 0 < unroll
      → n + unroll < 2 ^ 32
      → unroll_thread unroll at at start n ≡ batch_loop at start 0 n
  unfolding unroll_thread
  unroll_thread-batch_loop unroll start n pos fits =
      unroll_loop-batch_loop unroll (suc n) start n 0 pos fits (omega arith) (omega arith)
      ∙ ap (batch_loop at start 0) (omega arith)

  chosen_thread-batch_loop :
      (start n : ℕ) → n + 8 < 2 ^ 32 → chosen_thread at at start n ≡ batch_loop at start 0 n
  unfolding chosen_thread
  chosen_thread-batch_loop start n fits =
      rw
        (
          unroll_thread-batch_loop 8 start n (omega arith) fits,
          unroll_thread-batch_loop 4 start n (omega arith) (omega arith),
          unroll_thread-batch_loop 2 start n (omega arith) (omega arith),
        )
        (ground arith)

-- `count` numbers from `first` on, modulo 2 ^ 32.
unfoldable pub consecutive : ℕ → ℕ → List ℕ
consecutive first zero = []
consecutive first (suc count) = u32 first ∷ consecutive (first + 1) count

consecutive_add :
    (a b c first : ℕ)
    → c ≡ a + b
    → consecutive first c ≡ consecutive first a ++ consecutive (first + a) b
unfolding consecutive
consecutive_add zero b c first e =
    let same : c ≡ b = omega arith in let here : first + 0 ≡ first = omega arith in rw (same, here)
consecutive_add (suc a) b zero first e = absurd (omega arith)
consecutive_add (suc a) b (suc c) first e = ap (◌∷◌ (u32 first)) (
    consecutive_add a b c (first + 1) (omega arith)
    ∙ ap (λ f. consecutive (first + 1) a ++ consecutive f b) (omega arith))

-- What is done at each number, in order.
unfoldable pub gather : {A : Type 0} → (ℕ → List A) → List ℕ → List A
gather at [] = []
gather at (nonce ∷ nonces) = at nonce ++ gather at nonces

gather-append :
    {A : Type 0} (at : ℕ → List A) (xs ys : List ℕ)
    → gather at (xs ++ ys) ≡ gather at xs ++ gather at ys
unfolding gather
gather-append at [] ys = refl
gather-append at (x ∷ xs) ys =
    ap (◌++◌ (at x)) (gather-append at xs ys)
    ∙ sym (append_assoc (at x) (gather at xs) (gather at ys))

module _ {A : Type 0} (at : ℕ → List A) where
  batch_loop-gather :
      (first k left : ℕ)
      → batch_loop at (u32 first) k left ≡ gather at (consecutive (first + k) left)
  unfolding batch_loop gather consecutive
  batch_loop-gather first k zero = refl
  batch_loop-gather first k (suc left) =
      ap₂ (λ n rest. at n ++ rest) (omega arith)
        (batch_loop-gather first (k + 1) left
          ∙ ap (λ f. gather at (consecutive f left)) (omega arith))

  row-gather :
      (nonce_base j n lane lanes : ℕ)
      → n + 8 < 2 ^ 32
      → row at at nonce_base j n lane lanes
        ≡ gather at (consecutive (nonce_base + j + lane * n) (lanes * n))
  unfolding row start_nonce
  row-gather nonce_base j n lane zero fits =
      let none_left : 0 * n ≡ 0 = omega arith in rw none_left (unfold gather consecutive in refl)
  row-gather nonce_base j n lane (suc lanes) fits =
      ap₂ ◌++◌
        (chosen_thread-batch_loop at (start_nonce nonce_base j lane n) n fits
          ∙ batch_loop-gather (nonce_base + j + lane * n) 0 n
          ∙ ap (λ f. gather at (consecutive f n)) (omega arith))
        (row-gather nonce_base j n (lane + 1) lanes fits
          ∙ ap (λ f. gather at (consecutive f (lanes * n))) (omega arith))
      ∙ sym (
          ap (gather at) (
            consecutive_add n (lanes * n) (suc lanes * n) (nonce_base + j + lane * n) (omega arith))
          ∙ gather-append at (consecutive (nonce_base + j + lane * n) n)
              (consecutive (nonce_base + j + lane * n + n) (lanes * n)))

  pub launched-gather :
      (nonce_base j blocks threads n : ℕ)
      → 0 < n
      → n + 8 < 2 ^ 32
      → launched at at nonce_base j blocks threads n
        ≡ gather at (consecutive (nonce_base + j) (blocks * threads * n))
  unfolding launched
  launched-gather nonce_base j blocks threads n pos fits = rw (ne→== n 0 (omega arith)) (
      row-gather nonce_base j n 0 (blocks * threads) fits
      ∙ ap (λ f. gather at (consecutive f (blocks * threads * n))) (omega arith))
