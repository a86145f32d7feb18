-- ===== src/Cuda/AutoTune.antt =====
-- src/cuda/auto_tune.h: the micro-batch of the next launch from the time of the last.
pub mod Direction
use btc_multipool_cache_mine.Base.{
  ℕ, ◌*◌, ◌/◌, Bool, true, false, not, if◌then◌else◌, ltb, ◌==◌, u32, u64,
}

pub record AutoTuneInputs : Type 0 where
  pub observed_ms_per_batch : ℕ
  pub max_ms_per_batch : ℕ
  pub current_micro_batch : ℕ

pub record AutoTuneDecision : Type 0 where
  pub next_micro_batch : ℕ
  pub increased : Bool
  pub decreased : Bool

unfoldable pub doubled : ℕ → ℕ
doubled current = let next = u64 (current * 2) in u32 (if ltb 1000000 next then 1000000 else next)

unfoldable pub halved : ℕ → ℕ
halved current = if ltb 1 current then current / 2 else 1

unfoldable pub auto_tune_micro_batch : AutoTuneInputs → AutoTuneDecision
auto_tune_micro_batch input =
    let unchanged : AutoTuneDecision = record {
      next_micro_batch = input.current_micro_batch;
      increased = false;
      decreased = false;
    } in
    if input.observed_ms_per_batch == 0
    then unchanged
    else (if ltb (u32 (input.observed_ms_per_batch * 5)) (u32 (input.max_ms_per_batch * 4))
        then record {
          next_micro_batch = doubled input.current_micro_batch;
          increased = not (doubled input.current_micro_batch == input.current_micro_batch);
          decreased = false;
        }
        else (if ltb input.max_ms_per_batch input.observed_ms_per_batch
            then record {
              next_micro_batch = halved input.current_micro_batch;
              increased = false;
              decreased = not (halved input.current_micro_batch == input.current_micro_batch);
            }
            else unchanged))
