-- ===== src/Cuda/DeviceRing.antt =====
-- src/cuda/engine.cu, the ring of hits in device memory: what a block of threads writes to it, and
-- `drainDeviceHits` on the host. Each atomic operation is one step: a block is its hits in the order
-- in which `s_count` numbers them. A store or a read outside an array is a fault.
pub mod Slices
pub mod Spans
pub mod Holds
pub mod Blocks
pub mod Overflow
pub mod Launches
use btc_multipool_cache_mine.Base.{
  ℕ, zero, suc, ◌+◌, ◌-◌, ◌%◌, List, [], ◌∷◌, ◌++◌, Option, none, some, Bool, true, false, not,
  ◌&&◌, ◌||◌, ◌==◌, ltb, leb, if◌then◌else◌, u32, get_elem?, take, drop, length, min,
}
use btc_multipool_cache_mine.Base.Checked.{Checked, ok, out_of_bounds, store, ◌>>=◌}
use btc_multipool_cache_mine.Cuda.HitRing.{HitRecord}

-- The host's `s_device_hit_buf` (whether there is one), `s_device_hit_cap` and
-- `s_device_drain_offset`; the device's `g_hit_buf` as its cells, `g_hit_cap` and
-- `g_hit_write_idx`; and the count of flushes.
pub record DeviceRing : Type 0 where
  pub allocated : Bool
  pub host_cap : ℕ
  pub drain_offset : ℕ
  pub cells : List HitRecord
  pub cap : ℕ
  pub write_idx : ℕ
  pub flushes : ℕ

-- `memory capacity` is what the new allocation holds.
unfoldable pub init_device_hit_buffer : (ℕ → List HitRecord) → ℕ → DeviceRing → DeviceRing
init_device_hit_buffer memory capacity r =
    let n = if capacity == 0 then 1 else capacity in
    record r {
      allocated = true;
      host_cap = n;
      drain_offset = 0;
      cells = memory n;
      cap = n;
      write_idx = 0;
    }

-- The device keeps its pointer and its capacity.
unfoldable pub free_device_hit_buffer : DeviceRing → DeviceRing
free_device_hit_buffer r = record r { allocated = false; host_cap = 0 }

unfoldable pub slot_of : ℕ → ℕ → ℕ
slot_of cap idx = if cap == 0 then 0 else idx % cap

-- `atomicInc` of the index, and the store.
unfoldable pub push_hit : HitRecord → DeviceRing → Checked DeviceRing
push_hit hit r = do
  stored ← store r.cells (slot_of r.cap r.write_idx) hit
  ok (record r { cells = stored; write_idx = u32 (r.write_idx + 1) })

-- `kernel_push_hits` takes a number also where there is no buffer.
unfoldable pub push_guarded : HitRecord → DeviceRing → Checked DeviceRing
unfolding push_hit
push_guarded hit r =
    if r.cap == 0 then ok (record r { write_idx = u32 (r.write_idx + 1) }) else push_hit hit r

unfoldable pub push_work_ids : List ℕ → ℕ → ℕ → DeviceRing → Checked DeviceRing
push_work_ids [] nonce_base j r = ok r
push_work_ids (id ∷ ids) nonce_base j r = do
  next ← push_guarded (record { work_id = id; nonce = u32 (nonce_base + j) }) r
  push_work_ids ids nonce_base (j + 1) next

unfoldable pub launch_push_hits_to_device_ring :
    List ℕ → ℕ → DeviceRing → Checked (Bool × DeviceRing)
launch_push_hits_to_device_ring ids nonce_base r =
    if not r.allocated || (r.host_cap == 0)
    then ok (false, r)
    else do next ← push_work_ids ids nonce_base 0 r; ok (true, next)

-- The shared memory of a block.
pub record Block : Type 0 where
  pub s_hits : List HitRecord
  pub s_count : ℕ

-- One hit of a thread: the first 64 of a block are kept in shared memory.
unfoldable pub local_hit : HitRecord → Block × DeviceRing → Checked (Block × DeviceRing)
local_hit hit (b, r) =
    let counted = record b { s_count = u32 (b.s_count + 1) } in
    if ltb b.s_count 64
    then (do stored ← store b.s_hits b.s_count hit; ok (record counted { s_hits = stored }, r))
    else (do next ← push_hit hit r; ok (counted, next))

unfoldable pub local_hits : List HitRecord → Block × DeviceRing → Checked (Block × DeviceRing)
local_hits [] s = ok s
local_hits (hit ∷ hits) s = do next ← local_hit hit s; local_hits hits next

-- The loop of the flush: `left` hits from `s_hits[i]` on.
unfoldable pub flush_loop :
    List HitRecord → ℕ → ℕ → ℕ → ℕ → List HitRecord → Checked (List HitRecord)
flush_loop s_hits cap start i zero cells = ok cells
flush_loop s_hits cap start i (suc left) cells = elim (get_elem? s_hits i) [
  | none ↦ out_of_bounds
  | some hit ↦
      store cells (slot_of cap (u32 (start + i))) hit
      >>= (λ stored. flush_loop s_hits cap start (i + 1) left stored)
]

-- Thread 0, after the barrier.
unfoldable pub flush : Block × DeviceRing → Checked DeviceRing
flush (b, r) = if (b.s_count == 0) || (r.cap == 0) then ok r else (do
  cells ← flush_loop b.s_hits r.cap r.write_idx 0 b.s_count r.cells
  ok (record r {
    cells = cells;
    write_idx = u32 (r.write_idx + b.s_count);
    flushes = u32 (r.flushes + 1);
  }))

-- A block whose threads find these hits, on shared memory that holds `junk`.
unfoldable pub run_block : List HitRecord → List HitRecord → DeviceRing → Checked DeviceRing
run_block junk hits r = do
  counted ← local_hits hits (record { s_hits = junk; s_count = 0 }, r)
  flush counted

-- The blocks of launches, in the order of their flushes.
unfoldable pub run_blocks : List HitRecord → List (List HitRecord) → DeviceRing → Checked DeviceRing
run_blocks junk [] r = ok r
run_blocks junk (hits ∷ blocks) r = do next ← run_block junk hits r; run_blocks junk blocks next

-- The entries that were written since the last call, modulo 2 ^ 32.
unfoldable pub available : DeviceRing → ℕ
available r =
    if leb r.drain_offset r.write_idx
    then r.write_idx - r.drain_offset
    else 0xFFFFFFFF - r.drain_offset + 1 + r.write_idx

-- The two copies out of the ring.
unfoldable pub copy_out : List HitRecord → ℕ → ℕ → ℕ → Checked (List HitRecord)
copy_out cells cap start to_copy =
    let first = if ltb to_copy (cap - start) then to_copy else cap - start in
    if ltb (length cells) (to_copy - first)
    then out_of_bounds
    else ok (take first (drop start cells) ++ take (to_copy - first) cells)

-- The hits, with whether there is a ring.
unfoldable pub drain_device_hits : ℕ → DeviceRing → Checked (Bool × List HitRecord × DeviceRing)
drain_device_hits max_out r =
    if not r.allocated || (r.host_cap == 0)
    then ok (false, [], r)
    else (if available r == 0
        then ok (true, [], r)
        else (let to_copy = if ltb max_out (available r) then max_out else available r in
            copy_out r.cells r.host_cap (r.drain_offset % r.host_cap) to_copy >>= (λ hits.
              ok (true, hits, record r { drain_offset = u32 (r.drain_offset + to_copy) }))))

unfoldable pub read_and_reset_block_flush_count : DeviceRing → ℕ × DeviceRing
read_and_reset_block_flush_count r = (r.flushes, record r { flushes = 0 })
