-- ===== src/Tests/Launches.antt =====
-- The scheduler, the launch plan, the tuning, and the memory gates.
use btc_multipool_cache_mine.Base.{
  ℕ, ◌≤◌, max, ◌≡◌, refl, [], ◌∷◌, Option, none, some, true, arith, take, if◌then◌else◌, ◌==◌,
}
use btc_multipool_cache_mine.Registry.{WorkSlotSnapshot, default_item, default_job_const}
use btc_multipool_cache_mine.Scheduler.{
  SchedulerState, weight, capped, penalized, push_copies, select_loop, select,
}
use btc_multipool_cache_mine.Scheduler.Select.{wanted, select-take}
use btc_multipool_cache_mine.Cuda.LaunchPlan.{compute_launch_plan}
use btc_multipool_cache_mine.Cuda.LaunchPlan.Coverage.{Covers, compute_launch_plan-Covers}
use btc_multipool_cache_mine.Cuda.AutoTune.{AutoTuneInputs, auto_tune_micro_batch, doubled}
use btc_multipool_cache_mine.Cache.PredictWorker.{Watermarks, GpuTelemetry}

-- Source 1 has weight 3 and a penalty of 1.
abbrev state : SchedulerState
state = record {
  source_weight = λ sid. if sid == 1 then some 3 else none;
  tick = 0;
  source_penalty = λ sid. if sid == 1 then some 1 else none;
  max_weight_cap = 4;
}

-- The work items 10 and 20, of the sources 1 and 2.
abbrev snaps : ℕ → Option WorkSlotSnapshot
snaps wid =
    if wid == 10
    then some (record {
      gen = 1;
      item = record default_item { work_id = 10; source_id = 1 };
      job_const = default_job_const;
    })
    else (if wid == 20
        then some (record {
          gen = 1;
          item = record default_item { work_id = 20; source_id = 2 };
          job_const = default_job_const;
        })
        else none)

select_run : (select (10 ∷ 15 ∷ 20 ∷ []) snaps 64 state).0 ≡ 10 ∷ 10 ∷ 20 ∷ []
unfolding select select_loop push_copies weight capped penalized
select_run = refl

-- A limit of 0 still takes one.
select_none : (select (10 ∷ 20 ∷ []) snaps 0 state).0 ≡ 10 ∷ []
unfolding select select_loop push_copies weight capped penalized
select_none = refl

select-take_example :
    (select (10 ∷ 20 ∷ []) snaps 2 state).0 ≡ take (max 1 2) (wanted state snaps (10 ∷ 20 ∷ []))
select-take_example = select-take state snaps 2 (10 ∷ 20 ∷ [])

compute_launch_plan-Covers_example :
    Covers 1000
      (compute_launch_plan 3 1000).blocks_per_job
      (compute_launch_plan 3 1000).threads_per_block
    × ((compute_launch_plan 3 1000).num_jobs ≡ 3)
    × (64 ≤ (compute_launch_plan 3 1000).threads_per_block)
    × ((compute_launch_plan 3 1000).threads_per_block ≤ 256)
compute_launch_plan-Covers_example =
    compute_launch_plan-Covers 3 1000 (omega arith) (omega arith) (omega arith)

abbrev fast : AutoTuneInputs
fast = record { observed_ms_per_batch = 5; max_ms_per_batch = 16; current_micro_batch = 8 }

-- Above the limit, the micro-batch shrinks and is reported as increased.
auto_tune_above :
    ((auto_tune_micro_batch (record {
      observed_ms_per_batch = 5;
      max_ms_per_batch = 16;
      current_micro_batch = 2000000;
    })).next_micro_batch
      ≡ 1000000)
    × ((auto_tune_micro_batch (record {
      observed_ms_per_batch = 5;
      max_ms_per_batch = 16;
      current_micro_batch = 2000000;
    })).increased
        ≡ true)
unfolding auto_tune_micro_batch doubled
auto_tune_above = (refl, refl)

abbrev telemetry : GpuTelemetry
telemetry = record { total_vram_mib = 8192; used_vram_mib = 4096; gpu_util_percent = 50 }

abbrev low_target : Watermarks
low_target = record { target_util_percent = 5; min_free_mib = 256 }
