-- ===== src/Cache/PredictWorker.antt =====
-- src/cache/predict_worker.h: what the memory and the load of the GPU allow.
pub mod Gates
use btc_multipool_cache_mine.Base.{
  ℕ, ◌+◌, ◌-◌, ◌*◌, ◌^◌, Bool, true, false, not, ◌&&◌, ◌||◌, if◌then◌else◌, ltb, leb, u32,
}

-- `Watermarks` of src/cache/cache_manager.h.
pub record Watermarks : Type 0 where
  pub target_util_percent : ℕ
  pub min_free_mib : ℕ

abbrev pub default_watermarks : Watermarks
default_watermarks = record { target_util_percent = 85; min_free_mib = 256 }

pub record GpuTelemetry : Type 0 where
  pub total_vram_mib : ℕ
  pub used_vram_mib : ℕ
  pub gpu_util_percent : ℕ

pub record PredictDecision : Type 0 where
  pub throttle : Bool
  pub allow_allocate : Bool
  pub allow_release : Bool

unfoldable pub free_mib : GpuTelemetry → ℕ
free_mib t = if ltb t.used_vram_mib t.total_vram_mib then t.total_vram_mib - t.used_vram_mib else 0

unfoldable pub evaluate : Watermarks → GpuTelemetry → PredictDecision
evaluate wm t = record {
  throttle = leb 95 t.gpu_util_percent || ltb (free_mib t) wm.min_free_mib;
  allow_allocate =
      leb wm.min_free_mib (free_mib t) && leb t.gpu_util_percent (u32 (wm.target_util_percent + 5));
  allow_release = not (
      leb (u32 (wm.min_free_mib * 2)) (free_mib t)
      && ltb t.gpu_util_percent (u32 (wm.target_util_percent + (2 ^ 32 - 10))));
}
