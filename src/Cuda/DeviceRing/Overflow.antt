-- ===== src/Cuda/DeviceRing/Overflow.antt =====
-- A block of src/cuda/engine.cu that finds more than 64 hits reads past its shared memory.
use btc_multipool_cache_mine.Base.{
  ℕ, zero, suc, ◌+◌, ◌^◌, ◌<◌, ◌≤◌, ◌≡◌, refl, sym, ◌∙◌, List, [], ◌∷◌, some, Bool-cases, inl, inr,
  arith, length, get_elem?, set, u32, ltb, ne→==, length-set, Option-cases,
}
use mathlib.Core.Option.{some-ne-none}
use btc_multipool_cache_mine.Base.Checked.{Checked, ok, out_of_bounds, store, ◌>>=◌}
use btc_multipool_cache_mine.Cuda.HitRing.{HitRecord}
use btc_multipool_cache_mine.Cuda.DeviceRing.{
  DeviceRing, Block, slot_of, push_hit, local_hit, local_hits, flush_loop, flush, run_block,
}
use btc_multipool_cache_mine.Cuda.DeviceRing.Blocks.{flush_step, flush_step_end}

get_elem?_within :
    (xs : List HitRecord) (j : ℕ) (hit : HitRecord) → get_elem? xs j ≡ some hit → j < length xs
get_elem?_within [] j hit e = absurd (some-ne-none hit (sym e))
get_elem?_within (x ∷ xs) zero hit e = omega arith
get_elem?_within (x ∷ xs) (suc j) hit e = omega (arith, get_elem?_within xs j hit e)

flush_loop_beyond :
    (s_hits : List HitRecord) (n start i left : ℕ) (cells : List HitRecord)
    → length s_hits < i + left
    → i ≤ length s_hits
    → flush_loop s_hits n start i left cells ≡ out_of_bounds
unfolding store
flush_loop_beyond s_hits n start i zero cells lt le = absurd (omega arith)
flush_loop_beyond s_hits n start i (suc left) cells lt le =
    elim (Option-cases (get_elem? s_hits i)) [
      | inl e ↦ flush_step_end s_hits n start i left cells e
      | inr (hit, e) ↦
          flush_step s_hits n start i left cells hit e
          ∙ (elim (Bool-cases (ltb (slot_of n (u32 (start + i))) (length cells))) [
            | inl inside ↦ rw inside (
                flush_loop_beyond s_hits n start (i + 1) left
                  (set cells (slot_of n (u32 (start + i))) hit) (omega arith)
                  (omega (arith, get_elem?_within s_hits i hit e)))
            | inr outside ↦ rw outside
          ])
    ]

-- However the hits of a block were counted, shared memory keeps its size and the ring its capacity.
record Counted (k : ℕ) (n : ℕ) (b : Block) (r : DeviceRing) : Type 0 where
  size : length b.s_hits ≡ 64
  count : b.s_count ≡ k
  same_cap : r.cap ≡ n

Counts : ℕ → ℕ → Checked (Block × DeviceRing) → Type 0
Counts k n (ok (b, r)) = Counted k n b r
Counts k n out_of_bounds = Unit

local_hit-Counts :
    (hit : HitRecord) (k n : ℕ) (b : Block) (r : DeviceRing)
    → Counted k n b r
    → k + 1 < 2 ^ 32
    → Counts (k + 1) n (local_hit hit (b, r))
unfolding local_hit Counts push_hit store
local_hit-Counts hit k n b r v lt = elim (Bool-cases (ltb b.s_count 64)) [
  | inl early ↦ elim (Bool-cases (ltb b.s_count (length b.s_hits))) [
    | inl inside ↦
        rw (early, inside)
          (record {
            size = length-set b.s_hits b.s_count hit ∙ v.size;
            count = omega (arith, v.count);
            same_cap = v.same_cap;
          })
    | inr outside ↦ rw (early, outside) tt
  ]
  | inr late ↦ elim (Bool-cases (ltb (slot_of r.cap r.write_idx) (length r.cells))) [
    | inl inside ↦
        rw (late, inside)
          (record { size = v.size; count = omega (arith, v.count); same_cap = v.same_cap })
    | inr outside ↦ rw (late, outside) tt
  ]
]

flush-Counted :
    (b : Block) (r : DeviceRing) (k n : ℕ)
    → Counted k n b r
    → 64 < k
    → 0 < n
    → flush (b, r) ≡ out_of_bounds
unfolding flush
flush-Counted b r k n v many some_cells = rw (
  ne→== b.s_count 0 (omega (arith, v.count)),
  ne→== r.cap 0 (omega (arith, v.same_cap)),
  flush_loop_beyond b.s_hits r.cap r.write_idx 0 b.s_count r.cells (omega (arith, v.count, v.size))
      (omega arith),
)

local_hits-flush :
    (hits : List HitRecord) (k n : ℕ) (b : Block) (r : DeviceRing)
    → Counted k n b r
    → k + length hits < 2 ^ 32
    → 64 < k + length hits
    → 0 < n
    → (local_hits hits (b, r) >>= flush) ≡ out_of_bounds
unfolding local_hits Counts
local_hits-flush [] k n b r v lt many some_cells = flush-Counted b r k n v (omega arith) some_cells
local_hits-flush (hit ∷ hits) k n b r v lt many some_cells =
    go (local_hit hit (b, r)) (local_hit-Counts hit k n b r v (omega arith))
      (λ c s w. local_hits-flush hits (k + 1) n c s w (omega arith) (omega arith) some_cells)
  where
    go :
        (c : Checked (Block × DeviceRing))
        → Counts (k + 1) n c
        → ((b' : Block) (r' : DeviceRing)
            → Counted (k + 1) n b' r'
            → (local_hits hits (b', r') >>= flush) ≡ out_of_bounds)
        → ((c >>= (λ s. local_hits hits s)) >>= flush) ≡ out_of_bounds
    go (ok (b', r')) w rest = rest b' r' w
    go out_of_bounds w rest = refl

-- A block that finds more than 64 hits, and fewer than 2 ^ 32, while the ring has a capacity reads
-- or writes outside an array.
pub run_block_overflow :
    (junk hits : List HitRecord) (r : DeviceRing)
    → length junk ≡ 64
    → 0 < r.cap
    → 64 < length hits
    → length hits < 2 ^ 32
    → run_block junk hits r ≡ out_of_bounds
unfolding run_block
run_block_overflow junk hits r shared some_cells many lt =
    local_hits-flush hits 0 r.cap (record { s_hits = junk; s_count = 0 }) r
      (record { size = shared; count = refl; same_cap = refl }) (omega arith) (omega arith)
      some_cells
