-- ===== src/Cache/VramPages.antt =====
-- src/cache/vram_pages.cc and src/cache/cache_manager.cc: the pages, by the ids that `create` gives.
-- Every method runs under the mutex, as one step.
pub mod Ids
use btc_multipool_cache_mine.Base.{
  ℕ, ◌+◌, List, [], Option, none, some, Bool, true, false, length, u32, u64,
}
use btc_multipool_cache_mine.Base.Table.{lookup, assign, remove, has}
use btc_multipool_cache_mine.Cache.PredictWorker.{Watermarks}

pub record VramPageMeta : Type 0 where
  pub id : ℕ
  pub size_mib : ℕ
  pub in_use : Bool

pub record VramPages : Type 0 where
  pub next_id : ℕ
  pub pages : List (ℕ × VramPageMeta)

abbrev pub empty : VramPages
empty = record { next_id = 1; pages = [] }

unfoldable pub create : ℕ → VramPages → ℕ × VramPages
create size_mib p = (
  p.next_id,
  record {
    next_id = u64 (p.next_id + 1);
    pages =
        assign p.next_id (record { id = p.next_id; size_mib = size_mib; in_use = false }) p.pages;
  },
)

unfoldable pub mark_in_use : ℕ → Bool → VramPages → Bool × VramPages
mark_in_use id in_use p = elim (lookup id p.pages) [
  | none ↦ (false, p)
  | some meta ↦ (
    true,
    record {
      next_id = p.next_id;
      pages =
          assign id (record { id = meta.id; size_mib = meta.size_mib; in_use = in_use }) p.pages;
    },
  )
]

unfoldable pub destroy : ℕ → VramPages → Bool × VramPages
destroy id p = (has id p.pages, record { next_id = p.next_id; pages = remove id p.pages })

unfoldable pub total_pages : VramPages → ℕ
total_pages p = u32 (length p.pages)

pub record CacheManager : Type 0 where
  pub wm : Watermarks
  pub pages : VramPages

unfoldable pub allocate : ℕ → CacheManager → ℕ × CacheManager
allocate size_mib m =
    let (id, pages) = create size_mib m.pages in (id, record { wm = m.wm; pages = pages })

unfoldable pub release : ℕ → CacheManager → Bool × CacheManager
release id m =
    let (released, pages) = destroy id m.pages in (released, record { wm = m.wm; pages = pages })

unfoldable pub set_watermarks : Watermarks → CacheManager → CacheManager
set_watermarks wm m = record { wm = wm; pages = m.pages }

unfoldable pub watermarks : CacheManager → Watermarks
watermarks m = m.wm
