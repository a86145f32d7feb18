-- ===== src/Cuda/DeviceRing/Blocks.antt =====
-- A block of threads of src/cuda/engine.cu: its hits reach the ring in the order of their numbers.
use btc_multipool_cache_mine.Base.{
  ℕ, suc, ◌+◌, ◌%◌, ◌^◌, ◌<◌, ◌≤◌, ◌≡◌, refl, sym, ap, ap₂, ◌∙◌, List, [], ◌∷◌, ◌++◌, none, some,
  append_assoc, append-nil, arith, length, drop, get_elem?, get_elem?-append, u32, lt→ltb, ne→==,
  length-append, set-append,
}
use mathlib.Core.Path.{subst}
use btc_multipool_cache_mine.Base.Checked.{Checked, ok, out_of_bounds, store, store_in_range, ◌>>=◌}
use btc_multipool_cache_mine.Cuda.HitRing.{HitRecord}
use btc_multipool_cache_mine.Cuda.DeviceRing.{
  DeviceRing, slot_of, local_hit, local_hits, flush_loop, flush, run_block,
}
use btc_multipool_cache_mine.Cuda.DeviceRing.Slices.{reading}
use btc_multipool_cache_mine.Cuda.DeviceRing.Holds.{Holds, Pushed, push_hit-Pushed}

-- Shared memory takes the hits one behind the other.
local_hits-kept :
    (hits p junk : List HitRecord) (r : DeviceRing)
    → length p + length hits ≤ 64
    → length hits ≤ length junk
    → local_hits hits (record { s_hits = p ++ junk; s_count = length p }, r)
      ≡ ok (
        record {
          s_hits = p ++ (hits ++ drop (length hits) junk);
          s_count = length p + length hits;
        },
        r,
      )
unfolding local_hits local_hit
local_hits-kept [] p junk r le fits =
    ap (λ n. ok (record { s_hits = p ++ junk; s_count = n }, r)) (omega arith)
local_hits-kept (h ∷ hits) p [] r le fits = absurd (omega arith)
local_hits-kept (h ∷ hits) p (j ∷ junk) r le fits =
    rw
      (
        lt→ltb (length p) 64 (omega arith),
        store_in_range (p ++ j ∷ junk) (length p) h (omega (arith, length-append p (j ∷ junk))),
        set-append p (j ∷ junk) 0 (length p) h (omega arith),
      )
      (ap₂ (λ s n. local_hits hits (record { s_hits = s; s_count = n }, r))
          (sym (append_assoc p (h ∷ []) junk)) (omega (arith, length-append p (h ∷ [])))
        ∙ local_hits-kept hits (p ++ h ∷ []) junk r (omega (arith, length-append p (h ∷ [])))
            (omega arith)
        ∙ ap₂ (λ s n. ok (record { s_hits = s; s_count = n }, r))
            (append_assoc p (h ∷ []) (hits ++ drop (length hits) junk))
            (omega (arith, length-append p (h ∷ []))))

-- One round of the flush, where shared memory has the hit and where it ends.
module _ (s_hits : List HitRecord) (n start i left : ℕ) (cells : List HitRecord) where
  pub flush_step :
      (hit : HitRecord)
      → get_elem? s_hits i ≡ some hit
      → flush_loop s_hits n start i (suc left) cells ≡ (
          store cells (slot_of n (u32 (start + i))) hit
          >>= (λ stored. flush_loop s_hits n start (i + 1) left stored))
  unfolding flush_loop store
  flush_step hit e = rw (e, flush_loop)

  pub flush_step_end :
      get_elem? s_hits i ≡ none → flush_loop s_hits n start i (suc left) cells ≡ out_of_bounds
  unfolding flush_loop
  flush_step_end e = rw (e, flush_loop)

-- What the loop of the flush has stored: the ring as after so many pushes.
record Flushed (p hits rest held : List HitRecord) (r : DeviceRing) (start i : ℕ) : Type 0 where
  after : DeviceRing
  returns : flush_loop (p ++ (hits ++ rest)) r.cap start i (length hits) r.cells ≡ ok after.cells
  holds : Holds (held ++ hits) after
  same_cap : after.cap ≡ r.cap
  same_offset : after.drain_offset ≡ r.drain_offset

flush_loop-Flushed :
    (hits p rest held : List HitRecord) (r : DeviceRing) (start i : ℕ)
    → Holds held r
    → i ≡ length p
    → r.write_idx ≡ start + i
    → length held + length hits ≤ r.cap
    → start + i + length hits < 2 ^ 32
    → Flushed p hits rest held r start i
unfolding flush_loop
flush_loop-Flushed [] p rest held r start i v e w le lt = record {
  after = r;
  returns = refl;
  holds = subst (λ hs. Holds hs r) (sym (append-nil held)) v;
  same_cap = refl;
  same_offset = refl;
}
flush_loop-Flushed (h ∷ hits) p rest held r start i v e w le lt =
    let first : Pushed held h r = push_hit-Pushed held h r v (omega arith) (omega (arith, w)) in
    let more : Flushed (p ++ h ∷ []) hits rest (held ++ h ∷ []) first.after start (i + 1) =
      flush_loop-Flushed hits (p ++ h ∷ []) rest (held ++ h ∷ []) first.after start (i + 1)
        first.holds (omega (arith, length-append p (h ∷ []))) (omega (arith, first.next_idx, w))
        (omega (arith, length-append held (h ∷ []), first.same_cap)) (omega arith) in
    let after_store : List HitRecord → Checked (List HitRecord) =
      λ stored. flush_loop (p ++ h ∷ (hits ++ rest)) r.cap start (i + 1) (length hits) stored in
    let here : u32 (start + i) ≡ r.write_idx = omega (arith, w) in
    record {
      after = more.after;
      returns =
          flush_step (p ++ h ∷ (hits ++ rest)) r.cap start i (length hits) r.cells h
            (get_elem?-append p (hits ++ rest) h i e)
          ∙ ap (λ c. c >>= after_store)
              (ap (λ n. store r.cells (slot_of r.cap n) h) here ∙ first.stored)
          ∙ ap₂ (λ s c. flush_loop s c start (i + 1) (length hits) first.after.cells)
              (sym (append_assoc p (h ∷ []) (hits ++ rest))) (sym first.same_cap)
          ∙ more.returns;
      holds = subst (λ hs. Holds hs more.after) (append_assoc held (h ∷ []) hits) more.holds;
      same_cap = more.same_cap ∙ first.same_cap;
      same_offset = more.same_offset ∙ first.same_offset;
    }

pub record Ran (junk hits held : List HitRecord) (r : DeviceRing) : Type 0 where
  pub after : DeviceRing
  pub returns : run_block junk hits r ≡ ok after
  pub holds : Holds (held ++ hits) after
  pub same_cap : after.cap ≡ r.cap
  pub same_offset : after.drain_offset ≡ r.drain_offset

module _ (junk held : List HitRecord) (r : DeviceRing) (v : Holds held r)
    (shared : length junk ≡ 64) where
  run_nothing : Ran junk [] held r
  unfolding run_block local_hits flush
  run_nothing = record {
    after = r;
    returns = refl;
    holds = subst (λ hs. Holds hs r) (sym (append-nil held)) v;
    same_cap = refl;
    same_offset = refl;
  }

  module _ (h : HitRecord) (hits : List HitRecord) (few : length (h ∷ hits) ≤ 64)
      (free : length held + length (h ∷ hits) ≤ r.cap)
      (room : r.write_idx + length (h ∷ hits) < 2 ^ 32) where
    flushed : Flushed [] (h ∷ hits) (drop (length (h ∷ hits)) junk) held r r.write_idx 0
    flushed =
        flush_loop-Flushed (h ∷ hits) [] (drop (length (h ∷ hits)) junk) held r r.write_idx 0 v refl
          (omega arith) free (omega arith)

    count : 0 + length (h ∷ hits) ≡ suc (length hits)
    count = omega arith

    abbrev ran : DeviceRing
    ran = record r {
      cells = flushed.after.cells;
      write_idx = u32 (r.write_idx + suc (length hits));
      flushes = u32 (r.flushes + 1);
    }

    returned : run_block junk (h ∷ hits) r ≡ ok ran
    unfolding run_block flush
    returned = rw (
      local_hits-kept (h ∷ hits) [] junk r (omega arith) (omega arith),
      count,
      ne→== (suc (length hits)) 0 (omega arith),
      ne→== r.cap 0 (omega (arith, v.some_cells)),
      flushed.returns,
    )

    length-all : length (held ++ h ∷ hits) ≡ length held + suc (length hits)
    length-all = length-append held (h ∷ hits)

    holds : Holds (held ++ h ∷ hits) ran
    holds = record {
      allocated = v.allocated;
      some_cells = v.some_cells;
      same_cap = v.same_cap;
      cells = flushed.holds.cells ∙ flushed.same_cap;
      fits = omega (arith, length-all);
      written = omega (arith, length-all, v.written);
      no_wrap = omega arith;
      contents =
          ap₂ (λ c o. reading c flushed.after.cells (o % c) (length (held ++ h ∷ hits)))
            (sym flushed.same_cap) (sym flushed.same_offset)
          ∙ flushed.holds.contents;
    }

-- For a ring that holds some hits, its 32-bit write index not wrapped around yet, and a block of
-- at most 64 more that fit beside them before the index wraps around, the block does not fault,
-- and the ring then holds the old hits followed by the new ones, in the order of their numbers.
pub run_block-Ran :
    (junk hits held : List HitRecord) (r : DeviceRing)
    → Holds held r
    → length junk ≡ 64
    → length hits ≤ 64
    → length held + length hits ≤ r.cap
    → r.write_idx + length hits < 2 ^ 32
    → Ran junk hits held r
run_block-Ran junk [] held r v shared few free room = run_nothing junk held r v shared
run_block-Ran junk (h ∷ hits) held r v shared few free room = record {
  after = ran junk held r v shared h hits few free room;
  returns = returned junk held r v shared h hits few free room;
  holds = holds junk held r v shared h hits few free room;
  same_cap = refl;
  same_offset = refl;
}
