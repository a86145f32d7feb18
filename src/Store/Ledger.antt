-- ===== src/Store/Ledger.antt =====
-- src/store/ledger.h, `Ledger`: the work items by their id. Its files are JSON, of a library that
-- is not in the repository, and are not modelled.
pub mod Map
use btc_multipool_cache_mine.Base.{ℕ, List, [], Option}
use btc_multipool_cache_mine.Base.Table.{lookup, assign, remove}
use btc_multipool_cache_mine.Registry.{WorkItem}

pub record Ledger : Type 0 where
  pub work_map : List (ℕ × WorkItem)

abbrev pub empty : Ledger
empty = record { work_map = [] }

unfoldable pub put : WorkItem → Ledger → Ledger
put item l = record { work_map = assign item.work_id item l.work_map }

unfoldable pub get : ℕ → Ledger → Option WorkItem
get work_id l = lookup work_id l.work_map

unfoldable pub erase : ℕ → Ledger → Ledger
erase work_id l = record { work_map = remove work_id l.work_map }
