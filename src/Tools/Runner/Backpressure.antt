-- ===== src/Tools/Runner/Backpressure.antt =====
-- src/tools/stratum_registry_runner.cpp: the penalty of a source, and the auto-tuned number of threads.
-- `int` values are not negative here; a difference of two counters is compared by moving its terms.
pub mod Bounds
use btc_multipool_cache_mine.Base.{
  Option, none, some, u32, ℕ, ◌+◌, ◌-◌, ◌*◌, ◌/◌, Bool, true, false, not, ◌&&◌, ◌==◌, ltb,
  if◌then◌else◌, min, max,
}

-- What the runner of a source reports.
pub record Health : Type 0 where
  pub accepted : ℕ
  pub rejected : ℕ
  pub avg_submit_ms : ℕ
  pub connect_failures : ℕ
  pub quick_disconnects : ℕ

-- What is kept for a source from one update to the next: its entries of `last_acc`, `last_rej`,
-- `src_penalty` and of the scheduler's `source_penalty`.
pub record Backpressure : Type 0 where
  pub last_acc : ℕ
  pub last_rej : ℕ
  pub src_penalty : ℕ
  pub source_penalty : ℕ

abbrev pub one_if : Bool → ℕ
one_if b = if b then 1 else 0

unfoldable pub signals : ℕ → Health → Backpressure → ℕ
signals latency_penalty_ms h s =
    one_if (ltb (h.accepted + s.last_rej) (h.rejected + s.last_acc))
    + one_if (not (latency_penalty_ms == 0) && ltb latency_penalty_ms h.avg_submit_ms)
    + one_if (ltb 0 h.connect_failures)
    + one_if (ltb 3 h.connect_failures)
    + one_if (ltb 7 h.connect_failures)
    + one_if (ltb 0 h.quick_disconnects)
    + one_if (ltb 3 h.quick_disconnects)

unfoldable pub next_penalty : ℕ → ℕ → ℕ
next_penalty p prev =
    if (p == 0) && ltb 0 prev then prev - 1 else (if ltb 0 p then min (prev + p) 5 else prev)

unfoldable pub with_penalty : ℕ → Backpressure → Backpressure
with_penalty prev s = record s { src_penalty = prev; source_penalty = u32 prev }

-- The body of the loop over the sources; `none` is a source without a Stratum runner.
unfoldable pub update_source : ℕ → Option Health → Backpressure → Backpressure
update_source latency_penalty_ms none s = with_penalty (next_penalty 0 s.src_penalty) s
update_source latency_penalty_ms (some h) s =
    with_penalty (next_penalty (signals latency_penalty_ms h s) s.src_penalty)
      (record s { last_acc = h.accepted; last_rej = h.rejected })

-- `occ < 0.5` is an argument: it is false where the occupancy is not known.
unfoldable pub tune_threads : Bool → ℕ → ℕ → ℕ → ℕ
tune_threads occupancy_low kernel_ms budget_ms threads =
    if occupancy_low && ltb threads 1024
    then min 1024 (threads * 2)
    else (if ltb (kernel_ms * 5) (budget_ms * 4)
        then min 1024 (threads * 2)
        else (if ltb budget_ms kernel_ms && ltb 64 threads then max 64 (threads / 2) else threads))
