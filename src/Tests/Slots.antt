-- ===== src/Tests/Slots.antt =====
-- The registry and the pages of memory.
use btc_multipool_cache_mine.Base.{
  ℕ, ◌+◌, ◌≡◌, ◌≢◌, [], ◌∷◌, some, none, arith, replicate, suc, u64, false,
}
use btc_multipool_cache_mine.Base.Table.{lookup}
use btc_multipool_cache_mine.Registry.{
  WorkSourceRegistry, default_slot, default_item, default_job_const,
}
use btc_multipool_cache_mine.Registry.Laws.{Write, run, writes_to, gen_at, gen_at-run}
use btc_multipool_cache_mine.Cache.VramPages.{VramPages, empty, create, total_pages}
use btc_multipool_cache_mine.Cache.VramPages.Ids.{start, created, create-fresh}

abbrev three_slots : WorkSourceRegistry
three_slots = record { slots = replicate 3 default_slot }

abbrev write : ℕ → Write
write i = record { slot = i; item = default_item; job = default_job_const }

gen_at-run_example :
    gen_at 1 (run (write 1 ∷ write 0 ∷ write 7 ∷ write 1 ∷ []) three_slots)
    ≡ u64 (gen_at 1 three_slots + writes_to 1 (write 1 ∷ write 0 ∷ write 7 ∷ write 1 ∷ []))
gen_at-run_example =
    gen_at-run 1 (write 1 ∷ write 0 ∷ write 7 ∷ write 1 ∷ []) three_slots (omega arith)
      (omega arith)

abbrev one_page : VramPages
one_page = (create 64 empty).1

create-fresh_example :
    (lookup (create 32 one_page).0 one_page.pages ≡ none)
    × ((create 32 one_page).0 ≢ 0)
    × (lookup (create 32 one_page).0 (create 32 one_page).1.pages
        ≡ some (record { id = (create 32 one_page).0; size_mib = 32; in_use = false }))
    × ((i : ℕ)
        → i ≢ (create 32 one_page).0
        → lookup i (create 32 one_page).1.pages ≡ lookup i one_page.pages)
    × (total_pages (create 32 one_page).1 ≡ suc (total_pages one_page))
create-fresh_example = create-fresh 32 (created 64 start) (omega arith)
