-- ===== src/Normalize/RollingCaps/Clamp.antt =====
-- What the two functions of src/normalize/rolling_caps.h do to their argument.
use btc_multipool_cache_mine.Base.{
  ℕ, zero, suc, ◌+◌, ◌*◌, ◌/◌, ◌%◌, ◌^◌, ◌≤◌, ◌<◌, min, max, ◌≡◌, ◌∙◌, arith, bit_and, bit_or,
}
use native.Mathlib.Nat.{pow-suc}
use btc_multipool_cache_mine.Base.Bits.{bit_or-IsDigitwise, bit_and-IsDigitwise}
use btc_multipool_cache_mine.Normalize.RollingCaps.{bit_not, clamp_rolling_version, clamp_ntime}

or_doubled :
    (a b x y : ℕ) → x ≤ 1 → y ≤ 1 → bit_or (a * 2 + x) (b * 2 + y) ≡ bit_or a b * 2 + max x y
or_doubled a b x y hx hy =
    let ha : (a * 2 + x) / 2 ≡ a = omega arith in
    let hb : (b * 2 + y) / 2 ≡ b = omega arith in
    let la : (a * 2 + x) % 2 ≡ x = omega arith in
    let lb : (b * 2 + y) % 2 ≡ y = omega arith in
    bit_or-IsDigitwise (a * 2 + x) (b * 2 + y) ∙ rw (ha, hb, la, lb)

-- The bits outside a mask and the bits inside it are all the bits.
split_by_mask :
    (k v m n : ℕ) → v < 2 ^ k → m + n + 1 ≡ 2 ^ k → bit_or (bit_and v n) (bit_and v m) ≡ v
split_by_mask zero v m n hv h =
    let hv' : v ≡ 0 = omega arith in
    let hm : m ≡ 0 = omega arith in let hn : n ≡ 0 = omega arith in rw (hv', hm, hn)
split_by_mask (suc k) v m n hv h =
    let double = pow-suc 2 k in
    let rest = split_by_mask k (v / 2) (m / 2) (n / 2) (omega arith) (omega arith) in
    rw
      (
        bit_and-IsDigitwise v n,
        bit_and-IsDigitwise v m,
        or_doubled (bit_and (v / 2) (n / 2)) (bit_and (v / 2) (m / 2)) (min (v % 2) (n % 2))
            (min (v % 2) (m % 2)) (omega arith) (omega arith),
        rest,
      )
      (omega arith)

-- `clampRollingVersion` returns every 32-bit version as it is, whatever the 32-bit mask.
pub clamp_rolling_version-id :
    (version vmask : ℕ)
    → version < 2 ^ 32
    → vmask < 2 ^ 32
    → clamp_rolling_version version vmask ≡ version
unfolding clamp_rolling_version
clamp_rolling_version-id version vmask hv hm =
    split_by_mask 32 version vmask (bit_not vmask) hv (omega arith)

-- Between limits in order, the time is brought into them, and moved only where it was outside.
pub clamp_ntime-max-min :
    (ntime lo hi : ℕ) → lo ≤ hi → clamp_ntime ntime lo hi ≡ max lo (min ntime hi)
unfolding clamp_ntime
clamp_ntime-max-min ntime lo hi h = ground arith
