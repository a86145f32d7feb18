-- ===== src/Tools/Runner/Slots.antt =====
-- src/tools/stratum_registry_runner.cpp: what a source has normalized goes to its slot.
pub mod Drained
use btc_multipool_cache_mine.Base.{
  ℕ, zero, suc, List, [], ◌∷◌, Option, none, some, Bool, true, u32, length,
}
use btc_multipool_cache_mine.Base.Table.{assign}
use btc_multipool_cache_mine.Registry.{
  WorkItem, WorkSourceRegistry, Result, returns, throws, set_slot,
}
use btc_multipool_cache_mine.Normalize.Normalizer.{NormalizerResult}
use btc_multipool_cache_mine.Adapters.StratumAdapter.{StratumAdapter}
use btc_multipool_cache_mine.Adapters.StratumAdapter
use btc_multipool_cache_mine.Adapters.GbtAdapter.{GbtAdapter}
use btc_multipool_cache_mine.Adapters.GbtAdapter

-- The adapter of a source by its kind; `detached` is a source whose adapter is a null pointer.
pub data SourceAdapter : Type 0 where
  stratum : StratumAdapter → SourceAdapter
  gbt : GbtAdapter → SourceAdapter
  detached : SourceAdapter

unfoldable pub poll_full : SourceAdapter → Option NormalizerResult × SourceAdapter
poll_full (stratum a) =
    let (polled, next) = StratumAdapter.poll_normalized_full a in (polled, stratum next)
poll_full (gbt a) = let (polled, next) = GbtAdapter.poll_normalized_full a in (polled, gbt next)
poll_full detached = (none, detached)

-- The source's adapter, the registry, and `workid_to_source`.
pub record Sources : Type 0 where
  pub adapter : SourceAdapter
  pub reg : WorkSourceRegistry
  pub workid_to_source : List (ℕ × ℕ)

infixl 5 ◌>>=◌
abbrev ◌>>=◌ {ℓ κ} : {A : Type ℓ} {B : Type κ} → Result A → (A → Result B) → Result B
returns a >>= f = f a
throws e >>= f = throws e

abbrev pub from_source : ℕ → WorkItem → WorkItem
from_source sid item = record item { source_id = u32 sid; active = true }

-- The loop of one source, on fuel. What `set` throws ends the program.
unfoldable pub poll_source : ℕ → ℕ → Sources → Result Sources
poll_source zero sid s = returns s
poll_source (suc fuel) sid s =
    let (polled, adapter) = poll_full s.adapter in
    elim polled [
      | none ↦ returns (record s { adapter = adapter })
      | some full ↦ set_slot sid (from_source sid full.item) full.job_const s.reg >>= (λ reg.
          poll_source fuel sid (record {
            adapter = adapter;
            reg = reg;
            workid_to_source = assign full.item.work_id (u32 sid) s.workid_to_source;
          }))
    ]
