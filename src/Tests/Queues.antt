-- ===== src/Tests/Queues.antt =====
-- The ring of hits, the outbox, and the ledger.
use btc_multipool_cache_mine.Base.{
  ℕ, ◌+◌, ◌≡◌, refl, [], ◌∷◌, ◌++◌, arith, replicate, All, ◌<◌, ◌^◌, some, none, true, false,
}
use btc_multipool_cache_mine.Cuda.HitRing.{HitRecord, create}
use btc_multipool_cache_mine.Cuda.HitRing.Refine.{
  Pushes, Pops, to_list, push-Pushes, try_pop-Pops, create-IsValid,
}
use btc_multipool_cache_mine.Store.Outbox.{
  PendingSubmit, Outbox, empty, key_of, key, count, enqueue, drop_entry, rewrite_file,
  load_from_file,
}
use btc_multipool_cache_mine.Store.Outbox.Valid.{IsValid, enqueue-IsValid}
use btc_multipool_cache_mine.Store.Outbox.Rotation.{Files, rotate_file, rotate_file-keeps}
use btc_multipool_cache_mine.Store.Outbox.Drop.{queued, dropped, drop_entry-dropped}
use btc_multipool_cache_mine.Store.Outbox.File.{IsRecord, load_from_file-rewrite_file}

abbrev hit : ℕ → HitRecord
hit n = record { work_id = n; nonce = n + 1 }

push-Pushes_example : Pushes (hit 1) (create 2)
push-Pushes_example = push-Pushes (hit 1) (create 2) (create-IsValid 2 (omega arith))

try_pop-Pops_example : Pops (create 2) (to_list (create 2))
try_pop-Pops_example = try_pop-Pops (create 2) (create-IsValid 2 (omega arith))

abbrev pub submit : ℕ → ℕ → PendingSubmit
submit work_id nonce = record { work_id = work_id; nonce = nonce; header80 = replicate 80 1 }

abbrev pub two : Outbox
two = enqueue (submit 2 5) (enqueue (submit 1 4) empty)

pub empty-IsValid : IsValid empty
empty-IsValid = record { distinct = tt; known = tt }

pub two-IsValid : IsValid two
two-IsValid =
    enqueue-IsValid (submit 2 5) (enqueue (submit 1 4) empty)
      (enqueue-IsValid (submit 1 4) empty empty-IsValid)

submit-IsRecord : (n k : ℕ) → n < 2 ^ 64 → k < 2 ^ 32 → IsRecord (submit n k)
submit-IsRecord n k h h' = record { work_id_fits = h; nonce_fits = h'; header_80 = refl }

two-AreRecords : All IsRecord two.q
unfolding enqueue count key_of key
two-AreRecords = (
  submit-IsRecord 1 4 (omega arith) (omega arith),
  (submit-IsRecord 2 5 (omega arith) (omega arith), tt),
)

load_from_file-rewrite_file_example :
    (load_from_file (some ((rewrite_file true two (3 ∷ [])).1 ++ (1 ∷ 2 ∷ []))) empty).1.q ≡ two.q
load_from_file-rewrite_file_example =
    load_from_file-rewrite_file two empty (3 ∷ []) (1 ∷ 2 ∷ []) two-IsValid two-AreRecords
      (omega arith)

drop_entry-dropped_example : drop_entry 1 4 two ≡ (queued 1 4 two.q, dropped 1 4 two)
drop_entry-dropped_example = drop_entry-dropped 1 4 two

abbrev both : Files
both = record { at_old = some (1 ∷ []); at_new = none }

rotate_file-keeps_example : (rotate_file false true true both).1.at_new ≡ both.at_old
rotate_file-keeps_example = rotate_file-keeps false true true both refl
