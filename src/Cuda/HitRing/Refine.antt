-- ===== src/Cuda/HitRing/Refine.antt =====
-- `HitRingBuffer` of src/cuda/hit_ring.h is a queue of at most `capacity` hits.
use btc_multipool_cache_mine.Base.{
  ℕ, zero, suc, ◌+◌, ◌-◌, ◌%◌, ◌<◌, ◌≤◌, ◌≡◌, refl, ap, ap₂, sym, ◌∙◌, List, [], ◌∷◌, ◌++◌, none,
  some, arith, length, get_or, set, drop, if◌then◌else◌, ltb, ◌==◌, eq→==, ne→==, lt→ltb, le→ltb,
  get_or-set_self, length-set, length-replicate,
}
use native.Mathlib.Nat.{mod-lt, mod-eq_of_lt, mod-add-mod}
use native.Mathlib.Numerals.{add-one}
use native.Mathlib.Decide.{dec_lt}
use btc_multipool_cache_mine.Base.Checked.{ok, store, store_in_range}
use btc_multipool_cache_mine.Cuda.HitRing.{HitRecord, no_hit, HitRingBuffer, create, push, try_pop}
use btc_multipool_cache_mine.Cuda.HitRing.Cells.{read, read-set, read_snoc, shift}

pub record IsValid (r : HitRingBuffer) : Type 0 where
  pub some_cells : 0 < r.capacity
  pub cells : length r.buffer ≡ r.capacity
  pub head_in : r.head < r.capacity
  pub fits : r.size ≤ r.capacity
  pub tail_behind : r.tail ≡ (r.head + r.size) % r.capacity

-- The hits in the ring, the oldest first.
abbrev pub to_list : HitRingBuffer → List HitRecord
to_list r = read no_hit r.capacity r.buffer r.head r.size

pub create-IsValid : (capacity : ℕ) → 0 < capacity → IsValid (create capacity)
unfolding create
create-IsValid capacity h = record {
  some_cells = h;
  cells = length-replicate capacity no_hit;
  head_in = h;
  fits = omega arith;
  tail_behind = sym (mod-eq_of_lt (omega arith));
}

-- A push to a ring with free cells appends; to a full one it also drops the oldest hit.
abbrev pub pushed : HitRecord → HitRingBuffer → List HitRecord
pushed hit r =
    if ltb r.size r.capacity then to_list r ++ hit ∷ [] else drop 1 (to_list r) ++ hit ∷ []

pub record Pushes (hit : HitRecord) (r : HitRingBuffer) : Type 0 where
  pub after : HitRingBuffer
  pub returns : push hit r ≡ ok (after, r.size == r.capacity)
  pub valid : IsValid after
  pub contents : to_list after ≡ pushed hit r
  pub same_capacity : after.capacity ≡ r.capacity

module _ (hit : HitRecord) (r : HitRingBuffer) (v : IsValid r) where
  tail_in : r.tail < r.capacity
  tail_in = rw v.tail_behind (mod-lt (r.head + r.size) v.some_cells)

  stores : store r.buffer r.tail hit ≡ ok (set r.buffer r.tail hit)
  stores = store_in_range r.buffer r.tail hit (rw v.cells tail_in)

  written : get_or (set r.buffer r.tail hit) ((r.head + r.size) % r.capacity) no_hit ≡ hit
  written =
      ap (λ i. get_or (set r.buffer r.tail hit) i no_hit) (sym v.tail_behind)
      ∙ get_or-set_self r.buffer r.tail hit no_hit (rw v.cells tail_in)

  -- The tail stays behind the last hit.
  moved : (r.tail + 1) % r.capacity ≡ (r.head + (r.size + 1)) % r.capacity
  moved =
      rw v.tail_behind
        (mod-add-mod (r.head + r.size) r.capacity 1 ∙ ap (λ (t : ℕ). t % r.capacity) (omega arith))

  contents_free :
      r.size < r.capacity
      → read no_hit r.capacity (set r.buffer r.tail hit) r.head (r.size + 1) ≡ pushed hit r
  contents_free free =
      rw (add-one r.size, lt→ltb r.size r.capacity free)
        (read_snoc no_hit r.capacity (set r.buffer r.tail hit) r.head r.size v.head_in
          ∙ ap₂ (λ (xs : List HitRecord) (x : HitRecord). xs ++ x ∷ [])
              (read-set no_hit r.capacity r.buffer r.head r.size r.size r.tail hit v.head_in
                (omega arith) free v.tail_behind)
              written)

  push_free : r.size < r.capacity → Pushes hit r
  unfolding push
  push_free free = record {
    after = record r {
      buffer = set r.buffer r.tail hit;
      tail = (r.tail + 1) % r.capacity;
      size = r.size + 1;
    };
    returns = rw (stores, ne→== r.size r.capacity (omega arith));
    valid = record {
      some_cells = v.some_cells;
      cells = length-set r.buffer r.tail hit ∙ v.cells;
      head_in = v.head_in;
      fits = omega arith;
      tail_behind = moved;
    };
    contents = contents_free free;
    same_capacity = refl;
  }

  abbrev second : ℕ
  second = (r.head + 1) % r.capacity

  last_cell : (k : ℕ) → suc k ≡ r.size → r.tail ≡ (second + k) % r.capacity
  last_cell k e =
      v.tail_behind
      ∙ (ap (λ (t : ℕ). (r.head + t) % r.capacity) (sym e) ∙ shift no_hit r.capacity r.head k)

  contents_full :
      (k : ℕ)
      → suc k ≡ r.size
      → r.size ≡ r.capacity
      → read no_hit r.capacity (set r.buffer r.tail hit) second r.size ≡ pushed hit r
  unfolding read
  contents_full k e full =
      rw (← e, le→ltb (suc k) r.capacity (omega arith))
        (read_snoc no_hit r.capacity (set r.buffer r.tail hit) second k second_in
          ∙ ap₂ (λ (xs : List HitRecord) (x : HitRecord). xs ++ x ∷ [])
              (read-set no_hit r.capacity r.buffer second k k r.tail hit second_in (omega arith)
                (omega arith) (last_cell k e))
              (ap (λ i. get_or (set r.buffer r.tail hit) i no_hit)
                  (sym (last_cell k e) ∙ v.tail_behind)
                ∙ written))
    where
      second_in : second < r.capacity
      second_in = mod-lt (r.head + 1) v.some_cells

  push_full : (k : ℕ) → suc k ≡ r.size → r.size ≡ r.capacity → Pushes hit r
  unfolding push
  push_full k e full = record {
    after = record r {
      buffer = set r.buffer r.tail hit;
      head = second;
      tail = (r.tail + 1) % r.capacity;
    };
    returns = rw (stores, eq→== r.size r.capacity full);
    valid = record {
      some_cells = v.some_cells;
      cells = length-set r.buffer r.tail hit ∙ v.cells;
      head_in = mod-lt (r.head + 1) v.some_cells;
      fits = v.fits;
      tail_behind =
          moved
          ∙ (ap (λ (t : ℕ). (r.head + t) % r.capacity) (add-one r.size)
              ∙ shift no_hit r.capacity r.head r.size);
    };
    contents = contents_full k e full;
    same_capacity = refl;
  }

-- A push to a valid ring does not fault: the hits in it, oldest first, get the new one at the end
-- and lose the oldest exactly where the ring was full, which is what the result tells; the ring
-- stays valid, with its capacity.
pub push-Pushes : (hit : HitRecord) (r : HitRingBuffer) → IsValid r → Pushes hit r
push-Pushes hit r v = elim (dec_lt r.size r.capacity) [
  | yes free ↦ push_free hit r v free
  | no full ↦
      push_full hit r v (r.size - 1) (positive r.size r.capacity v.some_cells v.fits full)
        (omega (arith, v.fits))
]
  where
    positive : (s c : ℕ) → 0 < c → s ≤ c → ¬ (s < c) → suc (s - 1) ≡ s
    positive s c h le ge = omega arith

-- A pop takes the oldest hit, or finds the ring empty and leaves it.
abbrev pub Pops : HitRingBuffer → List HitRecord → Type 0
Pops r [] = try_pop r ≡ (none, r)
Pops r (x ∷ xs) = ((try_pop r).0 ≡ some x) × (to_list (try_pop r).1 ≡ xs) × IsValid (try_pop r).1

try_pop_at :
    (r : HitRingBuffer) (k : ℕ)
    → IsValid r
    → r.size ≡ k
    → Pops r (read no_hit r.capacity r.buffer r.head k)
unfolding try_pop read
try_pop_at r zero v e = rw (eq→== r.size 0 e)
try_pop_at r (suc k) v e =
    let more = ne→== r.size 0 (omega arith) in
    let left : r.size - 1 ≡ k = omega arith in
    rw more (
      refl,
      ap (λ n. read no_hit r.capacity r.buffer ((r.head + 1) % r.capacity) n) left,
      record {
        some_cells = v.some_cells;
        cells = v.cells;
        head_in = mod-lt (r.head + 1) v.some_cells;
        fits = omega (arith, v.fits);
        tail_behind =
            v.tail_behind
            ∙ (ap (λ (t : ℕ). (r.head + t) % r.capacity) (omega arith)
                ∙ shift no_hit r.capacity r.head (r.size - 1));
      },
    )

-- A pop of a valid ring gives its oldest hit and leaves a valid ring with the others; on an empty
-- ring it gives nothing and changes nothing.
pub try_pop-Pops : (r : HitRingBuffer) → IsValid r → Pops r (to_list r)
try_pop-Pops r v = try_pop_at r r.size v refl
