-- ===== src/Base/Checked.antt =====
-- Code that may write outside an array: a value, or the fault that C++ leaves undefined.
use Prim.Native.Nat.{ℕ, ◌<◌}
use mathlib.Core.List.{List}
use mathlib.Core.Path.{◌≡◌}
use btc_multipool_cache_mine.Base.Tests.{if◌then◌else◌, ltb, lt→ltb}
use btc_multipool_cache_mine.Base.Lists.{length, set}

pub data Checked {ℓ} (A : Type ℓ) : Type ℓ where
  ok : A → Checked A
  out_of_bounds : Checked A

infixl 5 ◌>>=◌
abbrev pub ◌>>=◌ {ℓ κ} : {A : Type ℓ} {B : Type κ} → Checked A → (A → Checked B) → Checked B
ok a >>= f = f a
out_of_bounds >>= f = out_of_bounds

-- `xs[i] = v`.
unfoldable pub store {ℓ} : {A : Type ℓ} → List A → ℕ → A → Checked (List A)
store xs i v = if ltb i (length xs) then ok (set xs i v) else out_of_bounds

pub store_in_range {ℓ} :
    {A : Type ℓ} (xs : List A) (i : ℕ) (v : A) → i < length xs → store xs i v ≡ ok (set xs i v)
unfolding store
store_in_range xs i v h = rw (lt→ltb i (length xs) h)
