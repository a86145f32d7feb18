-- ===== src/Normalize/RollingCaps.antt =====
-- src/normalize/rolling_caps.h: the limits on a rolled version and time.
pub mod Clamp
use btc_multipool_cache_mine.Base.{ℕ, ◌-◌, ◌^◌, bit_and, bit_or, if◌then◌else◌, ltb}

-- `~x` of a 32-bit word.
abbrev pub bit_not : ℕ → ℕ
bit_not x = 2 ^ 32 - 1 - x

unfoldable pub clamp_rolling_version : ℕ → ℕ → ℕ
clamp_rolling_version version vmask =
    bit_or (bit_and version (bit_not vmask)) (bit_and version vmask)

unfoldable pub clamp_ntime : ℕ → ℕ → ℕ → ℕ
clamp_ntime ntime ntime_min ntime_max =
    if ltb ntime ntime_min then ntime_min else (if ltb ntime_max ntime then ntime_max else ntime)
