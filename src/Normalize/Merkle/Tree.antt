-- ===== src/Normalize/Merkle/Tree.antt =====
-- `compute_merkle_root_be` of src/normalize/merkle.cc against the tree that it is the root of.
use btc_multipool_cache_mine.Base.{
  ℕ, zero, suc, ◌+◌, ◌*◌, ◌/◌, ◌^◌, ◌≤◌, ◌<◌, ◌≡◌, refl, ap, sym, ◌∙◌, List, [], ◌∷◌, ◌++◌, arith,
  if◌then◌else◌, leb, lt→ltb, le→ltb, lt→leb, le→leb, length, take, drop, length-take, length-drop,
}
use native.Mathlib.Nat.{pow-suc}
use native.Mathlib.Decide.{dec_lt}
use btc_multipool_cache_mine.Submit.Sha256.{sha256d}
use btc_multipool_cache_mine.Normalize.Merkle.{
  next_level, first_or_zeros, level_loop, compute_merkle_root_be,
}

-- The root of the full tree of depth `k`, top down: where the right half has no leaf, it is the
-- left half over again.
unfoldable pub tree_root : ℕ → List (List ℕ) → List ℕ
tree_root zero xs = first_or_zeros xs
tree_root (suc k) xs =
    let left = tree_root k (take (2 ^ k) xs) in
    let right = tree_root k (drop (2 ^ k) xs) in
    sha256d (left ++ (if leb (length xs) (2 ^ k) then left else right))

abbrev nothing : List (List ℕ)
nothing = []

take-next_level :
    (m n : ℕ) (xs : List (List ℕ)) → n ≡ 2 * m → next_level (take n xs) ≡ take m (next_level xs)
unfolding next_level
take-next_level zero zero xs e = refl
take-next_level zero (suc n) xs e = absurd (omega arith)
take-next_level (suc m) zero xs e = absurd (omega arith)
take-next_level (suc m) (suc zero) xs e = absurd (omega arith)
take-next_level (suc m) (suc (suc n)) [] e = refl
take-next_level (suc m) (suc (suc n)) (a ∷ []) e =
    ap (λ ys. sha256d (a ++ a) ∷ ys) (sym (take_nil m))
  where
    take_nil : (m : ℕ) → take m nothing ≡ nothing
    take_nil zero = refl
    take_nil (suc m) = refl
take-next_level (suc m) (suc (suc n)) (a ∷ b ∷ xs) e =
    ap (λ ys. sha256d (a ++ b) ∷ ys) (take-next_level m n xs (omega arith))

drop-next_level :
    (m n : ℕ) (xs : List (List ℕ)) → n ≡ 2 * m → next_level (drop n xs) ≡ drop m (next_level xs)
unfolding next_level
drop-next_level zero zero xs e = refl
drop-next_level zero (suc n) xs e = absurd (omega arith)
drop-next_level (suc m) zero xs e = absurd (omega arith)
drop-next_level (suc m) (suc zero) xs e = absurd (omega arith)
drop-next_level (suc m) (suc (suc n)) [] e = refl
drop-next_level (suc m) (suc (suc n)) (a ∷ []) e = sym (drop_nil m)
  where
    drop_nil : (m : ℕ) → drop m nothing ≡ nothing
    drop_nil zero = refl
    drop_nil (suc m) = refl
drop-next_level (suc m) (suc (suc n)) (a ∷ b ∷ xs) e = drop-next_level m n xs (omega arith)

length-next_level : (xs : List (List ℕ)) → length (next_level xs) ≡ (length xs + 1) / 2
unfolding next_level
length-next_level [] = refl
length-next_level (a ∷ []) = refl
length-next_level (a ∷ b ∷ xs) = omega (arith, length-next_level xs)

pow_pos : (k : ℕ) → 0 < 2 ^ k
pow_pos zero = omega arith
pow_pos (suc k) = omega (arith, pow-suc 2 k, pow_pos k)

tree_root-suc :
    (k : ℕ) (xs : List (List ℕ))
    → tree_root (suc k) xs
      ≡ sha256d (
          tree_root k (take (2 ^ k) xs)
          ++ (if leb (length xs) (2 ^ k)
              then tree_root k (take (2 ^ k) xs)
              else tree_root k (drop (2 ^ k) xs)))
unfolding tree_root
tree_root-suc k xs = refl

-- One level of the loop is the lowest level of the tree.
tree_root-next_level :
    (k : ℕ) (xs : List (List ℕ))
    → 0 < length xs
    → length xs ≤ 2 ^ suc k
    → tree_root (suc k) xs ≡ tree_root k (next_level xs)
tree_root-next_level zero [] pos hi = absurd (omega arith)
tree_root-next_level zero (a ∷ []) pos hi =
    unfold tree_root in unfold next_level in unfold first_or_zeros in refl
tree_root-next_level zero (a ∷ b ∷ []) pos hi =
    unfold tree_root in unfold next_level in unfold first_or_zeros in refl
tree_root-next_level zero (a ∷ b ∷ c ∷ xs) pos hi = absurd (omega arith)
tree_root-next_level (suc k) xs pos hi =
    let double = pow-suc 2 k in
    let more = pow-suc 2 (suc k) in
    let taken = length-take (2 ^ suc k) xs in
    let left : tree_root (suc k) (take (2 ^ suc k) xs)
        ≡ tree_root k (take (2 ^ k) (next_level xs)) =
      tree_root-next_level k (take (2 ^ suc k) xs) (omega (arith, pow_pos (suc k))) (omega arith)
      ∙ ap (tree_root k) (take-next_level (2 ^ k) (2 ^ suc k) xs (omega arith)) in
    let half = length-next_level xs in
    elim (dec_lt (2 ^ suc k) (length xs)) [
      | yes long ↦
          let dropped = length-drop (2 ^ suc k) xs in
          let right : tree_root (suc k) (drop (2 ^ suc k) xs)
              ≡ tree_root k (drop (2 ^ k) (next_level xs)) =
            tree_root-next_level k (drop (2 ^ suc k) xs) (omega arith) (omega arith)
            ∙ ap (tree_root k) (drop-next_level (2 ^ k) (2 ^ suc k) xs (omega arith)) in
          rw (
            tree_root-suc (suc k) xs,
            tree_root-suc k (next_level xs),
            lt→leb (length xs) (2 ^ suc k) long,
            lt→leb (length (next_level xs)) (2 ^ k) (omega arith),
            left,
            right,
          )
      | no short ↦ rw (
        tree_root-suc (suc k) xs,
        tree_root-suc k (next_level xs),
        le→leb (length xs) (2 ^ suc k) (omega arith),
        le→leb (length (next_level xs)) (2 ^ k) (omega arith),
        left,
      )
    ]

-- The loop stops at a single entry, which fuel of the level's length less one reaches.
level_loop-tree_root :
    (k fuel : ℕ) (xs : List (List ℕ))
    → length xs ≤ suc fuel
    → length xs ≤ 2 ^ k
    → 2 ^ k < 2 * length xs
    → level_loop fuel xs ≡ tree_root k xs
unfolding level_loop tree_root
level_loop-tree_root zero zero xs fuels hi lo = refl
level_loop-tree_root zero (suc fuel) xs fuels hi lo = rw (le→ltb 1 (length xs) (omega arith))
level_loop-tree_root (suc k) zero xs fuels hi lo = absurd (omega (arith, pow-suc 2 k, pow_pos k))
level_loop-tree_root (suc k) (suc fuel) xs fuels hi lo =
    let double = pow-suc 2 k in
    let positive = pow_pos k in
    let half = length-next_level xs in
    rw (lt→ltb 1 (length xs) (omega arith)) (
      level_loop-tree_root k fuel (next_level xs) (omega arith) (omega arith) (omega arith)
      ∙ sym (tree_root-next_level k xs (omega arith) hi))

-- For a list of ids whose number is at most 2 ^ k and more than half of 2 ^ k, the loop gives the
-- root of the full tree of depth k, in which a right half without leaves repeats the left one.
pub compute_merkle_root_be-tree_root :
    (k : ℕ) (txids : List (List ℕ))
    → length txids ≤ 2 ^ k
    → 2 ^ k < 2 * length txids
    → compute_merkle_root_be txids ≡ tree_root k txids
unfolding compute_merkle_root_be
compute_merkle_root_be-tree_root k txids hi lo =
    level_loop-tree_root k (length txids) txids (omega arith) hi lo
