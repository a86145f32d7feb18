-- ===== src/Cache/PredictWorker/Gates.antt =====
-- `PredictabilityWorker::evaluate` of src/cache/predict_worker.h: how its three answers fit together.
use btc_multipool_cache_mine.Base.{
  ◌+◌, ◌-◌, ◌*◌, ◌^◌, ◌≤◌, ◌<◌, ◌≡◌, ◌↔◌, ◌⊎◌, inl, inr, arith, true, false, ◌||◌,
}
use btc_multipool_cache_mine.Cache.PredictWorker.{Watermarks, GpuTelemetry, free_mib, evaluate}

-- With a target of at least 10 percent, a target that 5 can be added to in 32 bits, and a minimum
-- below 2 ^ 31, allocating and releasing are never both refused.
pub evaluate-never_stuck :
    (wm : Watermarks) (t : GpuTelemetry)
    → 10 ≤ wm.target_util_percent
    → wm.target_util_percent + 5 < 2 ^ 32
    → wm.min_free_mib < 2 ^ 31
    → ((evaluate wm t).allow_allocate || (evaluate wm t).allow_release) ≡ true
unfolding evaluate
evaluate-never_stuck wm t lo hi fits = ground arith

-- A GPU below 95 percent is throttled exactly where the free memory refuses the allocations.
pub evaluate-throttle_iff :
    (wm : Watermarks) (t : GpuTelemetry)
    → ((evaluate wm t).throttle ≡ true)
      ↔ ((95 ≤ t.gpu_util_percent) ⊎ (t.total_vram_mib - t.used_vram_mib < wm.min_free_mib))
unfolding evaluate free_mib
evaluate-throttle_iff wm t =
    (λ h. ground arith, λ h. elim h [ inl hot ↦ ground arith | inr low ↦ ground arith ])

-- With a target below 10 percent and a minimum below 2 ^ 31, a GPU with twice the minimum free and
-- a load above the target by more than 5 percent, and at most 100, is refused both allocating and
-- releasing.
pub evaluate_wrapped :
    (wm : Watermarks) (t : GpuTelemetry)
    → wm.target_util_percent < 10
    → wm.min_free_mib < 2 ^ 31
    → 2 * wm.min_free_mib ≤ free_mib t
    → wm.target_util_percent + 5 < t.gpu_util_percent
    → t.gpu_util_percent ≤ 100
    → ((evaluate wm t).allow_allocate ≡ false) × ((evaluate wm t).allow_release ≡ false)
unfolding evaluate
evaluate_wrapped wm t lo fits ample busy percent = ground arith
