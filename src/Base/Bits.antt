-- ===== src/Base/Bits.antt =====
-- `|`, `&` and `^` of the source as arithmetic. An operation on binary digits is known here by one
-- law, that of its lowest digit; what the fields of a word need follows from the law alone.
use Prim.Native.Nat.{
  ℕ, zero, suc, ◌+◌, ◌-◌, ◌*◌, ◌/◌, ◌%◌, ◌^◌, ◌≤◌, ◌<◌, min, max, bit_and, bit_or, bit_xor, differ,
  digits, bitwise, bit_and-bitwise, bit_or-bitwise, bit_xor-bitwise,
}
use mathlib.Core.Path.{◌≡◌, refl, sym, ap, ◌∙◌}
use native.Mathlib.Decide.{dec_lt}
use native.Mathlib.Nat.{
  pow-suc, div-div-eq-div-mul, mod-lt, mod-eq_of_lt, div-add-mod, mul-add-mod_self_left,
}
use native.Mathlib.Omega.{arith}

-- `op` works digit by digit, by `f`.
abbrev pub IsDigitwise : (ℕ → ℕ → ℕ) → (ℕ → ℕ → ℕ) → Type 0
IsDigitwise f op = (a b : ℕ) → op a b ≡ op (a / 2) (b / 2) * 2 + f (a % 2) (b % 2)

-- Fuel beyond the first argument changes nothing.
module _ (z : ℕ → ℕ) (f : ℕ → ℕ → ℕ) where
  one_spare : (n a b : ℕ) → a ≤ n → digits z f (suc n) a b ≡ digits z f n a b
  one_spare zero zero b h = refl
  one_spare zero (suc a) b h = absurd (omega arith)
  one_spare (suc n) zero b h = refl
  one_spare (suc n) (suc a) b h =
      ap (λ d. d * 2 + f (suc a % 2) (b % 2)) (one_spare n (suc a / 2) (b / 2) (omega arith))

  spare : (n a b : ℕ) → a ≤ n → digits z f n a b ≡ bitwise z f a b
  spare zero zero b h = refl
  spare zero (suc a) b h = absurd (omega arith)
  spare (suc n) a b h = elim (dec_lt n a) [
    | no less ↦ one_spare n a b (omega arith) ∙ spare n a b (omega arith)
    | yes more ↦ let e : a ≡ suc n = omega arith in rw e
  ]

  -- The law of the lowest digit, where the leaf of the recursion obeys it.
  bitwise-IsDigitwise : ((b : ℕ) → z b ≡ z (b / 2) * 2 + f 0 (b % 2)) → IsDigitwise f (bitwise z f)
  bitwise-IsDigitwise leaf zero b = leaf b
  bitwise-IsDigitwise leaf (suc a) b =
      ap (λ d. d * 2 + f (suc a % 2) (b % 2)) (spare a (suc a / 2) (b / 2) (omega arith))

pub bit_or-IsDigitwise : IsDigitwise max bit_or
bit_or-IsDigitwise a b =
    simp bit_or-bitwise (bitwise-IsDigitwise (λ y. y) max (λ b. omega arith) a b)

pub bit_and-IsDigitwise : IsDigitwise min bit_and
bit_and-IsDigitwise a b =
    simp bit_and-bitwise (bitwise-IsDigitwise (λ y. 0) min (λ b. omega arith) a b)

differ_right : (x : ℕ) → differ x 0 ≡ x
differ_right zero = refl
differ_right (suc x) = refl

bit_xor-IsDigitwise : IsDigitwise differ bit_xor
bit_xor-IsDigitwise a b =
    simp bit_xor-bitwise (bitwise-IsDigitwise (λ y. y) differ (λ b. omega arith) a b)

-- Where `f` has 0 for a unit, `op` adds fields that do not overlap.
module _ (f op : ℕ → ℕ → ℕ) (law : IsDigitwise f op) (at_zero : op 0 0 ≡ 0)
    (left : (x : ℕ) → f x 0 ≡ x) (right : (x : ℕ) → f 0 x ≡ x) where
  alone_up_to : (n a : ℕ) → a ≤ n → op a 0 ≡ a
  alone_up_to zero a h = let e : a ≡ 0 = omega arith in rw (e, at_zero)
  alone_up_to (suc n) a h = elim (dec_lt n a) [
    | no less ↦ alone_up_to n a (omega arith)
    | yes more ↦ law a 0 ∙ rw (alone_up_to n (a / 2) (omega arith), left (a % 2)) (omega arith)
  ]

  apart : (k q r s : ℕ) → s ≡ q * 2 ^ k → r < 2 ^ k → op s r ≡ s + r
  apart zero q r s e h =
      let e' : r ≡ 0 = omega arith in rw e' (alone_up_to s s (omega arith) ∙ omega arith)
  apart (suc k) q r s e h =
      let double : s ≡ q * 2 ^ k * 2 = omega (arith, e, ap (λ (p : ℕ). q * p) (pow-suc 2 k)) in
      let half : s / 2 ≡ q * 2 ^ k = omega arith in
      let even : s % 2 ≡ 0 = omega arith in
      law s r
      ∙ rw (even, right (r % 2), apart k q (r / 2) (s / 2) half (omega (arith, pow-suc 2 k)))
          (omega arith)

-- `(q << k) | r` and `(q << k) ^ r` are sums when `r` fits in `k` bits.
pub or_fields : (k q r : ℕ) → r < 2 ^ k → bit_or (q * 2 ^ k) r ≡ q * 2 ^ k + r
or_fields k q r h =
    apart max bit_or bit_or-IsDigitwise refl (λ x. omega arith) (λ x. omega arith) k q r (q * 2 ^ k)
      refl h

pub xor_fields : (k q r : ℕ) → r < 2 ^ k → bit_xor (q * 2 ^ k) r ≡ q * 2 ^ k + r
xor_fields k q r h =
    apart differ bit_xor bit_xor-IsDigitwise refl differ_right (λ x. refl) k q r (q * 2 ^ k) refl h

masked_out : (n a : ℕ) → a ≤ n → bit_and a 0 ≡ 0
masked_out zero a h = let e : a ≡ 0 = omega arith in rw e
masked_out (suc n) a h =
    bit_and-IsDigitwise a 0 ∙ rw (masked_out n (a / 2) (omega arith)) (omega arith)

pow_pos : (k : ℕ) → 0 < 2 ^ k
pow_pos zero = omega arith
pow_pos (suc k) = omega (arith, pow_pos k, pow-suc 2 k)

-- The remainder by the next power, from its lowest digit.
low_digit : (k a : ℕ) → a / 2 % 2 ^ k * 2 + a % 2 ≡ a % 2 ^ suc k
low_digit k a =
    let whole = div-add-mod (a / 2) (2 ^ k) in
    let small = mod-lt (a / 2) (pow_pos k) in
    let next = pow-suc 2 k in
    let quotient = a / 2 / 2 ^ k in
    let split : a ≡ 2 ^ suc k * quotient + (a / 2 % 2 ^ k * 2 + a % 2) =
      omega (arith, ap (λ (p : ℕ). p * quotient) next) in
    sym (
      ap (λ n. n % 2 ^ suc k) split
      ∙ mul-add-mod_self_left (2 ^ suc k) quotient (a / 2 % 2 ^ k * 2 + a % 2)
      ∙ mod-eq_of_lt (omega arith))

-- A mask of `k` low bits is the remainder by `2 ^ k`.
pub and_mask : (k a : ℕ) → bit_and a (2 ^ k - 1) ≡ a % 2 ^ k
and_mask zero a = masked_out a a (omega arith) ∙ omega arith
and_mask (suc k) a =
    let next = pow-suc 2 k in
    let positive = pow_pos k in
    let ones : (2 ^ suc k - 1) / 2 ≡ 2 ^ k - 1 = omega arith in
    let one : (2 ^ suc k - 1) % 2 ≡ 1 = omega arith in
    bit_and-IsDigitwise a (2 ^ suc k - 1)
    ∙ rw (ones, one, and_mask k (a / 2), ← low_digit k a) (omega arith)

-- A mask that starts at bit `s`.
pub and_field : (s m a : ℕ) → bit_and a (m * 2 ^ s) ≡ bit_and (a / 2 ^ s) m * 2 ^ s
and_field zero m a =
    let mask : m * 2 ^ 0 ≡ m = omega arith in
    let word : a / 2 ^ 0 ≡ a = omega arith in rw (mask, word) (omega arith)
and_field (suc s) m a =
    let mask : m * 2 ^ suc s ≡ m * 2 ^ s * 2 = omega (arith, ap (λ (p : ℕ). m * p) (pow-suc 2 s)) in
    let half : m * 2 ^ s * 2 / 2 ≡ m * 2 ^ s = omega arith in
    let even : m * 2 ^ s * 2 % 2 ≡ 0 = omega arith in
    let word : a / 2 ^ suc s ≡ a / 2 / 2 ^ s =
      ap (λ p. a / p) (omega (arith, pow-suc 2 s)) ∙ sym (div-div-eq-div-mul a 2 (2 ^ s)) in
    rw (mask, word)
      (bit_and-IsDigitwise a (m * 2 ^ s * 2)
        ∙ rw (half, even, and_field s m (a / 2))
            (omega (arith, ap (λ (p : ℕ). bit_and (a / 2 / 2 ^ s) m * p) (pow-suc 2 s))))
