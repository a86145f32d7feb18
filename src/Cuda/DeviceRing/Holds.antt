-- ===== src/Cuda/DeviceRing/Holds.antt =====
-- The ring in device memory of src/cuda/engine.cu is a queue, while it is drained in time.
use btc_multipool_cache_mine.Base.{
  ℕ, suc, ◌+◌, ◌%◌, ◌^◌, ◌<◌, ◌≤◌, ◌≡◌, inl, refl, sym, ap, ap₂, ◌∙◌, List, [], ◌∷◌, ◌++◌, true,
  arith, length, take, drop, get_or, set, u32, ◌==◌, if◌then◌else◌, ne→==, length-append,
  length-set, length-drop, get_or-set_self,
}
use native.Mathlib.Nat.{mod-add-mod, mod-lt}
use btc_multipool_cache_mine.Base.Checked.{ok, store, store_in_range}
use btc_multipool_cache_mine.Cuda.HitRing.{HitRecord, no_hit}
use btc_multipool_cache_mine.Cuda.HitRing.Cells.{read, read-set, read_snoc}
use btc_multipool_cache_mine.Cuda.DeviceRing.{
  DeviceRing, init_device_hit_buffer, slot_of, push_hit, drain_device_hits,
}
use btc_multipool_cache_mine.Cuda.DeviceRing.Spans.{Spans, drained, drain_device_hits-Spans}
use btc_multipool_cache_mine.Cuda.DeviceRing.Slices.{reading}

-- The ring holds these hits, the oldest first: they were written since the last drain, they fit, and
-- the indices have not wrapped around.
pub record Holds (hits : List HitRecord) (r : DeviceRing) : Type 0 where
  pub allocated : r.allocated ≡ true
  pub some_cells : 0 < r.cap
  pub same_cap : r.host_cap ≡ r.cap
  pub cells : length r.cells ≡ r.cap
  pub fits : length hits ≤ r.cap
  pub written : r.write_idx ≡ r.drain_offset + length hits
  pub no_wrap : r.write_idx < 2 ^ 32
  pub contents : reading r.cap r.cells (r.drain_offset % r.cap) (length hits) ≡ hits

-- A ring that was just allocated holds nothing, whatever its memory has.
pub init_device_hit_buffer-Holds :
    (memory : ℕ → List HitRecord)
    → ((n : ℕ) → length (memory n) ≡ n)
    → (capacity : ℕ) (r : DeviceRing) → Holds [] (init_device_hit_buffer memory capacity r)
unfolding init_device_hit_buffer read
init_device_hit_buffer-Holds memory sized capacity r = record {
  allocated = refl;
  some_cells = ground arith;
  same_cap = refl;
  cells = sized (if capacity == 0 then 1 else capacity);
  fits = omega arith;
  written = refl;
  no_wrap = omega arith;
  contents = refl;
}

pub slot_in : (cap idx : ℕ) → 0 < cap → slot_of cap idx ≡ idx % cap
unfolding slot_of
slot_in cap idx h = rw (ne→== cap 0 (omega arith))

pub record Pushed (hits : List HitRecord) (hit : HitRecord) (r : DeviceRing) : Type 0 where
  pub after : DeviceRing
  pub returns : push_hit hit r ≡ ok after
  pub holds : Holds (hits ++ hit ∷ []) after
  pub same_cap : after.cap ≡ r.cap
  pub same_offset : after.drain_offset ≡ r.drain_offset
  pub next_idx : after.write_idx ≡ r.write_idx + 1
  pub stored : store r.cells (slot_of r.cap r.write_idx) hit ≡ ok after.cells

module _ (hits : List HitRecord) (hit : HitRecord) (r : DeviceRing) (v : Holds hits r)
    (free : length hits < r.cap) (room : r.write_idx + 1 < 2 ^ 32) where
  abbrev slot : ℕ
  slot = r.write_idx % r.cap

  slot_lt : slot < length r.cells
  slot_lt = rw v.cells (mod-lt r.write_idx v.some_cells)

  behind : slot ≡ (r.drain_offset % r.cap + length hits) % r.cap
  behind =
      ap (λ (t : ℕ). t % r.cap) v.written ∙ sym (mod-add-mod r.drain_offset r.cap (length hits))

  stores : store r.cells (slot_of r.cap r.write_idx) hit ≡ ok (set r.cells slot hit)
  stores =
      ap (λ i. store r.cells i hit) (slot_in r.cap r.write_idx v.some_cells)
      ∙ store_in_range r.cells slot hit slot_lt

  contents_after :
      reading r.cap (set r.cells slot hit) (r.drain_offset % r.cap) (suc (length hits))
      ≡ hits ++ hit ∷ []
  contents_after =
      read_snoc no_hit r.cap (set r.cells slot hit) (r.drain_offset % r.cap) (length hits)
        (mod-lt r.drain_offset v.some_cells)
      ∙ ap₂ (λ (xs : List HitRecord) (x : HitRecord). xs ++ x ∷ [])
          (read-set no_hit r.cap r.cells (r.drain_offset % r.cap) (length hits) (length hits) slot
              hit (mod-lt r.drain_offset v.some_cells) (omega arith) free behind
            ∙ v.contents)
          (ap (λ i. get_or (set r.cells slot hit) i no_hit) (sym behind)
            ∙ get_or-set_self r.cells slot hit no_hit slot_lt)

  one_more : length (hits ++ hit ∷ []) ≡ suc (length hits)
  one_more = omega (arith, length-append hits (hit ∷ []))

  pub push_hit-Pushed : Pushed hits hit r
  unfolding push_hit
  push_hit-Pushed = record {
    after = record r { cells = set r.cells slot hit; write_idx = u32 (r.write_idx + 1) };
    returns = rw stores;
    holds = record {
      allocated = v.allocated;
      some_cells = v.some_cells;
      same_cap = v.same_cap;
      cells = length-set r.cells slot hit ∙ v.cells;
      fits = omega (arith, one_more);
      written = omega (arith, one_more, v.written);
      no_wrap = omega arith;
      contents =
          ap (reading r.cap (set r.cells slot hit) (r.drain_offset % r.cap)) one_more
          ∙ contents_after;
    };
    same_cap = refl;
    same_offset = refl;
    next_idx = omega arith;
    stored = stores;
  }

-- Up to `max_out` of the oldest hits come out, in their order; the ring holds the others.
pub record Drained (max_out : ℕ) (hits : List HitRecord) (r : DeviceRing) : Type 0 where
  pub after : DeviceRing
  pub returns : drain_device_hits max_out r ≡ ok (true, take max_out hits, after)
  pub holds : Holds (drop max_out hits) after
  pub same_cap : after.cap ≡ r.cap

-- A ring whose indices have not wrapped around is one whose indices may.
pub Holds-Spans : (hits : List HitRecord) (r : DeviceRing) → Holds hits r → Spans hits r
Holds-Spans hits r v = record {
  allocated = v.allocated;
  some_cells = v.some_cells;
  same_cap = v.same_cap;
  cells = v.cells;
  fits = v.fits;
  few = omega (arith, v.written, v.no_wrap);
  offset_lt = omega (arith, v.written, v.no_wrap);
  written = omega (arith, v.written, v.no_wrap);
  aligned = inl (omega (arith, v.written, v.no_wrap));
  contents = v.contents;
}

pub drain_device_hits-Drained :
    (max_out : ℕ) (hits : List HitRecord) (r : DeviceRing) → Holds hits r → Drained max_out hits r
drain_device_hits-Drained max_out hits r v =
    let (returns, rest) = drain_device_hits-Spans max_out hits r (Holds-Spans hits r v) in
    let fewer = length-drop max_out hits in
    record {
      after = drained max_out hits r;
      returns = returns;
      holds = record {
        allocated = v.allocated;
        some_cells = v.some_cells;
        same_cap = v.same_cap;
        cells = v.cells;
        fits = rest.fits;
        written = omega (arith, v.written, v.no_wrap, fewer);
        no_wrap = v.no_wrap;
        contents = rest.contents;
      };
      same_cap = refl;
    }
