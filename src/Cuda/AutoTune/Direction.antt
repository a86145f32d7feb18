-- ===== src/Cuda/AutoTune/Direction.antt =====
-- `autoTuneMicroBatch` of src/cuda/auto_tune.h: what the decision says against what it does.
use btc_multipool_cache_mine.Base.{ℕ, ◌≤◌, ◌≡◌, arith, ltb}
use btc_multipool_cache_mine.Cuda.AutoTune.{
  AutoTuneInputs, AutoTuneDecision, doubled, halved, auto_tune_micro_batch,
}

doubled-bounds :
    (current : ℕ)
    → 1 ≤ current
    → current ≤ 1000000
    → (current ≤ doubled current) × (doubled current ≤ 1000000)
unfolding doubled
doubled-bounds current lo hi = ground arith

halved-bounds : (current : ℕ) → 1 ≤ current → (1 ≤ halved current) × (halved current ≤ current)
unfolding halved
halved-bounds current lo = ground arith

abbrev pub Sound : AutoTuneInputs → AutoTuneDecision → Type 0
Sound input d =
    (1 ≤ d.next_micro_batch)
    × (d.next_micro_batch ≤ 1000000)
    × (d.increased ≡ ltb input.current_micro_batch d.next_micro_batch)
    × (d.decreased ≡ ltb d.next_micro_batch input.current_micro_batch)

-- From a micro-batch between 1 and 1000000, the next one is in the same range, and the decision
-- says `increased` exactly where it is larger and `decreased` exactly where it is smaller.
pub auto_tune_micro_batch-Sound :
    (input : AutoTuneInputs)
    → 1 ≤ input.current_micro_batch
    → input.current_micro_batch ≤ 1000000
    → Sound input (auto_tune_micro_batch input)
unfolding auto_tune_micro_batch
auto_tune_micro_batch-Sound input lo hi =
    let up = doubled-bounds input.current_micro_batch lo hi in
    let down = halved-bounds input.current_micro_batch lo in ground arith
