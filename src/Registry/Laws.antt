-- ===== src/Registry/Laws.antt =====
-- `WorkSourceRegistry` of src/registry/work_source_registry.cc: what `get` sees after `set`.
use btc_multipool_cache_mine.Base.{
  ℕ, ◌+◌, ◌^◌, ◌<◌, ◌≤◌, ◌≡◌, ◌≢◌, refl, sym, ◌∙◌, List, [], ◌∷◌, none, some, arith, if◌then◌else◌,
  leb, ◌==◌, length, get_or, set, u64, length-set, get_or-set_self, get_or-set_ne, ne→==, le→leb,
  lt→leb, Bool-cases, inl, inr, ==→eq, ==→ne,
}
use mathlib.Core.Path.{subst}
use native.Mathlib.Decide.{dec_lt}
use native.Mathlib.Nat.{mod-lt, mod-eq_of_lt, mod-add-mod}
use btc_multipool_cache_mine.Registry.{
  WorkItem, GpuJobConst, WorkSourceRegistry, Result, returns, throws, out_of_range, default_slot,
  published, size, set_slot, get,
}

module _ (i : ℕ) (item : WorkItem) (job : GpuJobConst) (r : WorkSourceRegistry) where
  -- A `set` outside the slots throws and a `get` there finds nothing.
  pub set_slot-out_of_range :
      size r ≤ i → (set_slot i item job r ≡ throws out_of_range) × (get i r ≡ none)
  unfolding size set_slot get
  set_slot-out_of_range h = rw (le→leb (length r.slots) i h) (refl, refl)

  abbrev pub written : WorkSourceRegistry
  written = record { slots = set r.slots i (published (get_or r.slots i default_slot) item job) }

  -- After a `set` inside the slots, `get` finds the new item and constants under the next
  -- generation, every other slot reads as before, and the number of slots is the same.
  pub get-set_slot :
      i < size r
      → (set_slot i item job r ≡ returns written)
        × (size written ≡ size r)
        × (get i written
            ≡ some (record {
              gen = u64 ((get_or r.slots i default_slot).gen + 1);
              item = item;
              job_const = job;
            }))
        × ((j : ℕ) → j ≢ i → get j written ≡ get j r)
  unfolding size set_slot get
  get-set_slot h = (
    rw (lt→leb (length r.slots) i h),
    length-set r.slots i _,
    rw (
      length-set r.slots i (published (get_or r.slots i default_slot) item job),
      lt→leb (length r.slots) i h,
      get_or-set_self r.slots i (published (get_or r.slots i default_slot) item job) default_slot h,
    ),
    λ j ne. rw (
      length-set r.slots i (published (get_or r.slots i default_slot) item job),
      get_or-set_ne r.slots i j (published (get_or r.slots i default_slot) item job) default_slot
          (λ e. ne (sym e)),
    ),
  )

-- A run of `set` calls; one that throws changes nothing.
pub record Write : Type 0 where
  pub slot : ℕ
  pub item : WorkItem
  pub job : GpuJobConst

abbrev pub after : WorkSourceRegistry → Result WorkSourceRegistry → WorkSourceRegistry
after r (returns r') = r'
after r (throws e) = r

unfoldable pub run : List Write → WorkSourceRegistry → WorkSourceRegistry
run [] r = r
run (w ∷ ws) r = run ws (after r (set_slot w.slot w.item w.job r))

-- The writes to one slot.
unfoldable pub writes_to : ℕ → List Write → ℕ
writes_to i [] = 0
writes_to i (w ∷ ws) = (if w.slot == i then 1 else 0) + writes_to i ws

abbrev pub gen_at : ℕ → WorkSourceRegistry → ℕ
gen_at i r = (get_or r.slots i default_slot).gen

add_zero : (n : ℕ) → n + 0 ≡ n
add_zero n = omega arith

add_assoc : (a b c : ℕ) → (a + b) + c ≡ a + (b + c)
add_assoc a b c = omega arith

gen_at-set_slot :
    (i : ℕ) (w : Write) (r : WorkSourceRegistry)
    → i < length r.slots
    → gen_at i r < 2 ^ 64
    → gen_at i (after r (set_slot w.slot w.item w.job r))
      ≡ u64 (gen_at i r + (if w.slot == i then 1 else 0))
unfolding set_slot
gen_at-set_slot i w r h fits = elim (dec_lt w.slot (length r.slots)) [
  | no out ↦
      rw
        (
          le→leb (length r.slots) w.slot (omega arith),
          ne→== w.slot i (λ e. out (subst (λ k. k < length r.slots) (sym e) h)),
          add_zero (gen_at i r),
        )
        (sym (mod-eq_of_lt fits))
  | yes inside ↦ elim (Bool-cases (w.slot == i)) [
    | inl e ↦ rw (
      lt→leb (length r.slots) w.slot inside,
      e,
      ==→eq w.slot i e,
      gen_at,
      get_or-set_self r.slots i (published (get_or r.slots i default_slot) w.item w.job)
          default_slot h,
    )
    | inr e ↦
        rw
          (
            lt→leb (length r.slots) w.slot inside,
            e,
            gen_at,
            get_or-set_ne r.slots w.slot i
                (published (get_or r.slots w.slot default_slot) w.item w.job) default_slot
                (==→ne w.slot i e),
            add_zero (gen_at i r),
          )
          (sym (mod-eq_of_lt fits))
  ]
]

length-after :
    (w : Write) (r : WorkSourceRegistry)
    → length (after r (set_slot w.slot w.item w.job r)).slots ≡ length r.slots
unfolding set_slot
length-after w r = elim (Bool-cases (leb (length r.slots) w.slot)) [
  | inl e ↦ rw e
  | inr e ↦
      rw
        (e, length-set r.slots w.slot (published (get_or r.slots w.slot default_slot) w.item w.job))
]

-- For a slot of the registry with a 64-bit generation, its generation after a run of `set` calls,
-- those that throw among them, is the old one plus the number of calls for the slot, modulo 2 ^
-- 64.
pub gen_at-run :
    (i : ℕ) (ws : List Write) (r : WorkSourceRegistry)
    → i < length r.slots
    → gen_at i r < 2 ^ 64
    → gen_at i (run ws r) ≡ u64 (gen_at i r + writes_to i ws)
unfolding run writes_to
gen_at-run i [] r h fits = rw (add_zero (gen_at i r)) (sym (mod-eq_of_lt fits))
gen_at-run i (w ∷ ws) r h fits =
    let r' = after r (set_slot w.slot w.item w.job r) in
    let e = gen_at-set_slot i w r h fits in
    let inside = subst (λ k. i < k) (sym (length-after w r)) h in
    let fits' =
      subst (λ k. k < 2 ^ 64) (sym e)
        (mod-lt (gen_at i r + (if w.slot == i then 1 else 0)) (omega arith)) in
    let step : u64 (gen_at i r' + writes_to i ws) ≡ u64 (gen_at i r + writes_to i (w ∷ ws)) = rw (
      e,
      mod-add-mod (gen_at i r + (if w.slot == i then 1 else 0)) (2 ^ 64) (writes_to i ws),
      add_assoc (gen_at i r) (if w.slot == i then 1 else 0) (writes_to i ws),
    ) in
    gen_at-run i ws r' inside fits' ∙ step
