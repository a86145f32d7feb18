-- ===== src/Cuda/DeviceRing/Spans.antt =====
-- The drain of the ring in device memory of src/cuda/engine.cu, whose 32-bit indices wrap around.
use btc_multipool_cache_mine.Base.{
  ℕ, ◌+◌, ◌-◌, ◌%◌, ◌^◌, ◌<◌, ◌≤◌, ◌≡◌, ◌⊎◌, inl, inr, refl, sym, ap, ap₂, ◌∙◌, List, [], Bool,
  true, arith, length, take, drop, min, u32, ltb, if◌then◌else◌, le→leb, lt→leb, ne→==, length-drop,
}
use native.Mathlib.Decide.{dec_lt}
use native.Mathlib.Nat.{mod-add-mod, mod-lt, mod-mod_of_dvd, dvd_of_mod-eq-zero}
use btc_multipool_cache_mine.Base.Checked.{Checked, ok}
use btc_multipool_cache_mine.Cuda.HitRing.{HitRecord}
use btc_multipool_cache_mine.Cuda.DeviceRing.{DeviceRing, available, copy_out, drain_device_hits}
use btc_multipool_cache_mine.Cuda.DeviceRing.Slices.{
  reading, copy_out-read, take-reading, drop-reading, take_clipped, drop_clipped,
}

-- The cells from the drain's offset on have these hits, the oldest first; the write index, of 32
-- bits, is behind them. Where it has wrapped around, the capacity divides 2 ^ 32.
pub record Spans (hits : List HitRecord) (r : DeviceRing) : Type 0 where
  pub allocated : r.allocated ≡ true
  pub some_cells : 0 < r.cap
  pub same_cap : r.host_cap ≡ r.cap
  pub cells : length r.cells ≡ r.cap
  pub fits : length hits ≤ r.cap
  pub few : length hits < 2 ^ 32
  pub offset_lt : r.drain_offset < 2 ^ 32
  pub written : r.write_idx ≡ u32 (r.drain_offset + length hits)
  pub aligned : (r.drain_offset + length hits < 2 ^ 32) ⊎ ((2 ^ 32) % r.cap ≡ 0)
  pub contents : reading r.cap r.cells (r.drain_offset % r.cap) (length hits) ≡ hits

-- The ring after a drain of at most `max_out` of the hits.
abbrev pub drained : ℕ → List HitRecord → DeviceRing → DeviceRing
drained max_out hits r = record r {
  drain_offset = u32 (r.drain_offset + min max_out (length hits));
}

mod_around : (cap m a : ℕ) → m % cap ≡ 0 → a % m % cap ≡ a % cap
mod_around cap m a e = mod-mod_of_dvd cap a (dvd_of_mod-eq-zero cap e)

module _ (max_out : ℕ) (hits : List HitRecord) (r : DeviceRing) (v : Spans hits r) where
  abbrev start : ℕ
  start = r.drain_offset % r.cap

  all_available : available r ≡ length hits
  unfolding available
  all_available = elim (dec_lt (r.drain_offset + length hits) (2 ^ 32)) [
    | yes below ↦
        rw (le→leb r.drain_offset r.write_idx (omega (arith, v.written))) (omega (arith, v.written))
    | no around ↦
        rw (lt→leb r.drain_offset r.write_idx (omega (arith, v.written, v.few, v.offset_lt)))
          (omega (arith, v.written, v.few, v.offset_lt))
  ]

  abbrev taken : ℕ
  taken = min max_out (length hits)

  start_lt : start < r.cap
  start_lt = mod-lt r.drain_offset v.some_cells

  front : take max_out hits ≡ reading r.cap r.cells start taken
  front =
      take_clipped max_out taken hits refl
      ∙ ap (take taken) (sym v.contents)
      ∙ take-reading r.cap r.cells start taken (length hits) (omega arith) start_lt

  back : drop max_out hits ≡ reading r.cap r.cells ((start + taken) % r.cap) (length hits - taken)
  back =
      drop_clipped max_out taken hits refl
      ∙ ap (drop taken) (sym v.contents)
      ∙ drop-reading r.cap r.cells start taken (length hits) (omega arith) start_lt

  length-back : length (drop max_out hits) ≡ length hits - taken
  length-back = omega (arith, length-drop max_out hits)

  -- The new offset names the cell behind the hits that were taken, wrapped around or not.
  offset-start : u32 (r.drain_offset + taken) % r.cap ≡ (start + taken) % r.cap
  offset-start =
      elim v.aligned [
        | inl below ↦
            let kept : u32 (r.drain_offset + taken) ≡ r.drain_offset + taken = omega arith in
            ap (λ (t : ℕ). t % r.cap) kept
        | inr divides ↦ mod_around r.cap (2 ^ 32) (r.drain_offset + taken) divides
      ]
      ∙ sym (mod-add-mod r.drain_offset r.cap taken)

  aligned_rest :
      (u32 (r.drain_offset + taken) + length (drop max_out hits) < 2 ^ 32) ⊎ ((2 ^ 32) % r.cap ≡ 0)
  aligned_rest = elim v.aligned [
    | inl below ↦ inl (omega (arith, length-back))
    | inr divides ↦ inr divides
  ]

  rest-Spans : Spans (drop max_out hits) (drained max_out hits r)
  rest-Spans = record {
    allocated = v.allocated;
    some_cells = v.some_cells;
    same_cap = v.same_cap;
    cells = v.cells;
    fits = omega (arith, length-back, v.fits);
    few = omega (arith, length-back, v.few);
    offset_lt = omega arith;
    written = omega (arith, v.written, length-back);
    aligned = aligned_rest;
    contents = ap₂ (reading r.cap r.cells) offset-start length-back ∙ sym back;
  }

  to_copy-taken : (if ltb max_out (length hits) then max_out else length hits) ≡ taken
  to_copy-taken = ground arith

  copied : copy_out r.cells r.host_cap (r.drain_offset % r.host_cap) taken ≡ ok (take max_out hits)
  copied =
      ap (λ c. copy_out r.cells c (r.drain_offset % c) taken) v.same_cap
      ∙ copy_out-read r.cap r.cells start taken v.cells start_lt (omega (arith, v.fits))
      ∙ ap ok (sym front)

  drained_some :
      0 < length hits
      → drain_device_hits max_out r ≡ ok (true, take max_out hits, drained max_out hits r)
  unfolding drain_device_hits available
  drained_some some_hits = rw (
    v.allocated,
    ne→== r.host_cap 0 (omega (arith, v.same_cap, v.some_cells)),
    all_available,
    ne→== (length hits) 0 (omega arith),
    to_copy-taken,
    copied,
  )

  drained_none : length hits ≡ 0 → drain_device_hits max_out r ≡ ok (true, [], r)
  unfolding drain_device_hits available
  drained_none no_hits = rw (
    v.allocated,
    ne→== r.host_cap 0 (omega (arith, v.same_cap, v.some_cells)),
    all_available,
    no_hits,
  )

  abbrev returned : List HitRecord → ℕ → Checked (Bool × List HitRecord × DeviceRing)
  returned hs offset = ok (true, hs, record r { drain_offset = offset })

  none_taken :
      length hits ≡ 0
      → returned [] r.drain_offset ≡ returned (take max_out hits) (u32 (r.drain_offset + taken))
  none_taken no_hits =
      ap₂ returned (sym (take_clipped max_out 0 hits (omega arith))) (omega (arith, v.offset_lt))

  -- From a ring whose cells from the drain's offset on have some hits, as many as it has cells and
  -- fewer than 2 ^ 32 at most, with the 32-bit write index behind them, which has wrapped around
  -- only where the capacity divides 2 ^ 32: `drainDeviceHits` gives the oldest hits, up to the
  -- limit and in their order, moves the offset behind them modulo 2 ^ 32, and the ring then has
  -- the others in the same way.
  pub drain_device_hits-Spans :
      (drain_device_hits max_out r ≡ ok (true, take max_out hits, drained max_out hits r))
      × Spans (drop max_out hits) (drained max_out hits r)
  drain_device_hits-Spans = (
    elim (dec_lt 0 (length hits)) [
      | yes some_hits ↦ drained_some some_hits
      | no no_hits ↦ drained_none (omega arith) ∙ none_taken (omega arith)
    ],
    rest-Spans,
  )
