-- ===== src/Base/Value.antt =====
-- The number that a string of bytes stands for, the most significant byte first.
use Prim.Native.Nat.{ℕ, zero, suc, ◌+◌, ◌*◌, ◌^◌, ◌<◌}
use mathlib.Core.Path.{◌≡◌, refl, ap}
use mathlib.Core.List.{List, [], ◌∷◌, ◌++◌}
use native.Mathlib.Nat.{pow-suc, pow-zero}
use native.Mathlib.Omega.{arith}
use btc_multipool_cache_mine.Base.Lists.{length, replicate, length-append}
use btc_multipool_cache_mine.Base.Word.{AreBytes}

unfoldable pub be_value : List ℕ → ℕ
be_value [] = 0
be_value (b ∷ bs) = b * 256 ^ length bs + be_value bs

-- A leading digit decides.
pub lex_lt : (p a b u v : ℕ) → a < b → u < p → a * p + u < b * p + v
lex_lt p a b u v h k = grind arith

pub be_value-lt : (bs : List ℕ) → AreBytes bs → be_value bs < 256 ^ length bs
unfolding be_value
be_value-lt [] h = omega arith
be_value-lt (b ∷ bs) h = omega (
  arith,
  lex_lt (256 ^ length bs) b 256 (be_value bs) 0 h.0 (be_value-lt bs h.1),
  pow-suc 256 (length bs),
)

pow-add : (n a b c : ℕ) → c ≡ a + b → n ^ c ≡ n ^ a * n ^ b
pow-add n zero b c e =
    let e' : c ≡ b = omega arith in rw e' (omega (arith, ap (λ (t : ℕ). t * n ^ b) (pow-zero n)))
pow-add n (suc a) b zero e = absurd (omega arith)
pow-add n (suc a) b (suc c) e =
    rw (pow-suc n c, pow-suc n a, pow-add n a b c (omega arith)) (omega arith)

pub be_value-append :
    (xs ys : List ℕ) → be_value (xs ++ ys) ≡ be_value xs * 256 ^ length ys + be_value ys
unfolding be_value
be_value-append [] ys = omega arith
be_value-append (x ∷ xs) ys = omega (
  arith,
  be_value-append xs ys,
  ap (λ (t : ℕ). x * t)
      (pow-add 256 (length xs) (length ys) (length (xs ++ ys)) (length-append xs ys)),
)

pub be_value-replicate : (n : ℕ) → be_value (replicate n 0) ≡ 0
unfolding be_value
be_value-replicate zero = refl
be_value-replicate (suc n) = omega (arith, be_value-replicate n)
