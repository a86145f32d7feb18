-- ===== src/Store/Ledger/Map.antt =====
-- `Ledger` of src/store/ledger.h: its three methods as those of a finite map.
use btc_multipool_cache_mine.Base.{ℕ, ◌≡◌, ◌≢◌, none, some}
use btc_multipool_cache_mine.Base.Table.{
  lookup-assign_self, lookup-assign_ne, lookup-remove_self, lookup-remove_ne,
}
use btc_multipool_cache_mine.Registry.{WorkItem}
use btc_multipool_cache_mine.Store.Ledger.{Ledger, put, get, erase}

pub get-put-erase :
    (item : WorkItem) (l : Ledger)
    → (get item.work_id (put item l) ≡ some item)
      × (get item.work_id (erase item.work_id l) ≡ none)
      × ((id : ℕ)
          → id ≢ item.work_id
          → (get id (put item l) ≡ get id l) × (get id (erase item.work_id l) ≡ get id l))
unfolding get put erase
get-put-erase item l = (
  lookup-assign_self item.work_id item l.work_map,
  lookup-remove_self item.work_id l.work_map,
  λ id ne. (
    lookup-assign_ne item.work_id id item l.work_map ne,
    lookup-remove_ne item.work_id id l.work_map ne,
  ),
)
