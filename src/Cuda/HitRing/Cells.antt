-- ===== src/Cuda/HitRing/Cells.antt =====
-- Reading a ring of cells from a start, for `HitRingBuffer` of src/cuda/hit_ring.h.
use btc_multipool_cache_mine.Base.{
  ℕ, zero, suc, ◌+◌, ◌-◌, ◌%◌, ◌<◌, ◌≤◌, ◌≡◌, ◌≢◌, refl, ap, ap₂, sym, ◌∙◌, List, [], ◌∷◌, ◌++◌,
  arith, get_or, set, get_or-set_ne,
}
use native.Mathlib.Nat.{mod-add-mod, mod-lt, mod-eq_of_lt, mod-eq-sub-mod}
use native.Mathlib.Decide.{dec_lt}

module _ {ℓ} {A : Type ℓ} (d : A) (cap : ℕ) where
  -- `k` cells from index `i` on.
  unfoldable pub read : List A → ℕ → ℕ → List A
  read cells i zero = []
  read cells i (suc k) = get_or cells i d ∷ read cells ((i + 1) % cap) k

  -- One step along the ring.
  pub shift : (i m : ℕ) → (i + suc m) % cap ≡ ((i + 1) % cap + m) % cap
  shift i m = ap (λ (t : ℕ). t % cap) (omega arith) ∙ sym (mod-add-mod (i + 1) cap m)

  pub wrap : (x : ℕ) → cap ≤ x → x < cap + cap → x % cap ≡ x - cap
  wrap x h k = mod-eq-sub-mod h ∙ mod-eq_of_lt (omega arith)

  apart : (i m : ℕ) → i < cap → m < cap → 0 < m → i ≢ (i + m) % cap
  apart i m h k p e = elim (dec_lt (i + m) cap) [
    | yes lt ↦ absurd (omega (arith, mod-eq_of_lt lt))
    | no ge ↦ absurd (omega (arith, wrap (i + m) (omega arith) (omega arith)))
  ]

  -- A write behind the cells that are read is not seen.
  pub read-set :
      (cells : List A) (i k m t : ℕ) (v : A)
      → i < cap
      → k ≤ m
      → m < cap
      → t ≡ (i + m) % cap
      → read (set cells t v) i k ≡ read cells i k
  unfolding read
  read-set cells i zero m t v h le lt e = refl
  read-set cells i (suc k) zero t v h le lt e = absurd (omega arith)
  read-set cells i (suc k) (suc m) t v h le lt e =
      ap₂ ◌∷◌
        (get_or-set_ne cells t i v d (λ same. apart i (suc m) h lt (omega arith) (sym same ∙ e)))
        (read-set cells ((i + 1) % cap) k m t v (mod-lt (i + 1) (omega arith)) (omega arith)
          (omega arith) (e ∙ shift i m))

  pub read_snoc :
      (cells : List A) (i k : ℕ)
      → i < cap
      → read cells i (suc k) ≡ read cells i k ++ get_or cells ((i + k) % cap) d ∷ []
  unfolding read
  read_snoc cells i zero h =
      let e : i ≡ (i + 0) % cap = sym (ap (λ (t : ℕ). t % cap) (omega arith) ∙ mod-eq_of_lt h) in
      ap (λ j. get_or cells j d ∷ []) e
  read_snoc cells i (suc k) h = ap (◌∷◌ (get_or cells i d)) (
      read_snoc cells ((i + 1) % cap) k (mod-lt (i + 1) (omega arith))
      ∙ ap (λ j. read cells ((i + 1) % cap) k ++ get_or cells j d ∷ []) (sym (shift i k)))
