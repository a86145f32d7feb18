-- ===== src/Cuda/HitRing.antt =====
-- src/cuda/hit_ring.h, `HitRingBuffer`: a ring of hits that overwrites the oldest when it is full.
-- Each method runs under the mutex, as one step. The element is `HitRecord` of src/cuda/engine.h.
pub mod Cells
pub mod Refine
use btc_multipool_cache_mine.Base.{
  ℕ, ◌+◌, ◌-◌, ◌%◌, List, Option, none, some, Bool, true, false, if◌then◌else◌, ◌==◌, get_or,
  replicate,
}
use btc_multipool_cache_mine.Base.Checked.{Checked, ok, store, ◌>>=◌}

pub record HitRecord : Type 0 where
  pub work_id : ℕ
  pub nonce : ℕ

abbrev pub no_hit : HitRecord
no_hit = record { work_id = 0; nonce = 0 }

pub record HitRingBuffer : Type 0 where
  pub capacity : ℕ
  pub buffer : List HitRecord
  pub head : ℕ
  pub tail : ℕ
  pub size : ℕ

unfoldable pub create : ℕ → HitRingBuffer
create capacity = record {
  capacity = capacity;
  buffer = replicate capacity no_hit;
  head = 0;
  tail = 0;
  size = 0;
}

-- The new ring, and whether a hit was overwritten. A ring of capacity 0 has no cell to store to.
unfoldable pub push : HitRecord → HitRingBuffer → Checked (HitRingBuffer × Bool)
push hit r = do
  let overwrote = r.size == r.capacity
  stored ← store r.buffer r.tail hit
  let moved = record r { buffer = stored; tail = (r.tail + 1) % r.capacity }
  ok (
      if overwrote
      then (record moved { head = (r.head + 1) % r.capacity }, true)
      else (record moved { size = r.size + 1 }, false))

unfoldable pub try_pop : HitRingBuffer → Option HitRecord × HitRingBuffer
try_pop r = if r.size == 0 then (none, r) else (
  some (get_or r.buffer r.head no_hit),
  record r { head = (r.head + 1) % r.capacity; size = r.size - 1 },
)
