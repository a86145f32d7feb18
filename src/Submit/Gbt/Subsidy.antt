-- ===== src/Submit/Gbt/Subsidy.antt =====
-- `computeBlockSubsidy` of src/submit/gbt_submitter.cc.
use btc_multipool_cache_mine.Base.{
  ℕ, zero, suc, ◌+◌, ◌-◌, ◌*◌, ◌/◌, ◌^◌, ◌≤◌, ◌≡◌, sym, arith, if◌then◌else◌, leb, ◌>>>◌, le→leb,
  lt→leb,
}
use native.Mathlib.Decide.{dec_lt}
use native.Mathlib.Nat.{pow-suc, div-eq_of_lt}

unfoldable pub compute_block_subsidy : ℕ → ℕ
compute_block_subsidy height =
    let subsidy = 50 * 100000000 in
    let halvings = height / 210000 in if leb 64 halvings then 0 else subsidy >>> halvings

power_large : (k n : ℕ) → n ≡ 33 + k → 2 ^ 33 ≤ 2 ^ n
power_large zero n e = let e' : n ≡ 33 = omega arith in rw e' (omega arith)
power_large (suc k) zero e = absurd (omega arith)
power_large (suc k) (suc n) e = omega (arith, power_large k n (omega arith), pow-suc 2 n)

-- At every height the subsidy is 5000000000 / 2 ^ (height / 210000): the early return at 64
-- halvings changes no value.
pub compute_block_subsidy-halvings :
    (height : ℕ) → compute_block_subsidy height ≡ 5000000000 / 2 ^ (height / 210000)
unfolding compute_block_subsidy
compute_block_subsidy-halvings height = elim (dec_lt (height / 210000) 64) [
  | yes early ↦ rw (lt→leb 64 (height / 210000) early)
  | no late ↦
      let large = power_large (height / 210000 - 33) (height / 210000) (omega arith) in
      rw (le→leb 64 (height / 210000) (omega arith)) (sym (div-eq_of_lt (omega (arith, large))))
]
