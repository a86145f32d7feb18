-- ===== src/Cache/VramPages/Ids.antt =====
-- `VramPages` of src/cache/vram_pages.cc: the ids it gives out, over every run of its methods.
use btc_multipool_cache_mine.Base.{
  ℕ, suc, ◌^◌, ◌≤◌, ◌<◌, ◌≡◌, ◌≢◌, refl, ap, sym, ◌∙◌, none, some, Bool, false, length, arith,
  Option-cases, Bool-cases, ◌==◌, ==→eq, ==→ne, ◌-◌, inl, inr,
}
use mathlib.Core.Option.{some-ne-none}
use btc_multipool_cache_mine.Base.Table.{
  lookup, assign, remove, has, has-none, lookup-assign_self, lookup-assign_ne, lookup-remove_self,
  lookup-remove_ne, length-assign_new, length-assign_old, length-remove,
}
use btc_multipool_cache_mine.Cache.VramPages.{
  VramPageMeta, VramPages, empty, create, mark_in_use, destroy, total_pages,
}

-- Every run of the methods, by the calls of `create` in it.
pub data Reachable : ℕ → VramPages → Type 0 where
  start : Reachable 0 empty
  created :
      {n : ℕ} {p : VramPages} (size_mib : ℕ)
      → Reachable n p
      → Reachable (suc n) (create size_mib p).1
  marked :
      {n : ℕ} {p : VramPages} (id : ℕ) (in_use : Bool)
      → Reachable n p
      → Reachable n (mark_in_use id in_use p).1
  destroyed : {n : ℕ} {p : VramPages} (id : ℕ) → Reachable n p → Reachable n (destroy id p).1

-- The next id counts the calls, and no page has an id that is still to come.
pub record IsValid (n : ℕ) (p : VramPages) : Type 0 where
  pub counts : p.next_id ≡ suc n
  pub unused : (id : ℕ) → suc n ≤ id → lookup id p.pages ≡ none
  pub few : length p.pages ≤ n
  pub zero_free : lookup 0 p.pages ≡ none

create-IsValid :
    (n size_mib : ℕ) (p : VramPages)
    → suc (suc n) < 2 ^ 64
    → IsValid n p
    → IsValid (suc n) (create size_mib p).1
unfolding create
create-IsValid n size_mib p fits valid =
    let fresh : lookup p.next_id p.pages ≡ none =
      valid.unused p.next_id (omega (arith, valid.counts)) in
    let new : VramPageMeta = record { id = p.next_id; size_mib = size_mib; in_use = false } in
    record {
      counts = omega (arith, valid.counts);
      unused = λ id h.
          lookup-assign_ne p.next_id id new p.pages (λ e. absurd (omega (arith, valid.counts)))
          ∙ valid.unused id (omega arith);
      few = rw (length-assign_new p.next_id new p.pages fresh) (omega (arith, valid.few));
      zero_free =
          lookup-assign_ne p.next_id 0 new p.pages (λ e. absurd (omega (arith, valid.counts)))
          ∙ valid.zero_free;
    }

mark_in_use-IsValid :
    (n id : ℕ) (in_use : Bool) (p : VramPages) → IsValid n p → IsValid n (mark_in_use id in_use p).1
unfolding mark_in_use
mark_in_use-IsValid n id in_use p valid = elim (Option-cases (lookup id p.pages)) [
  | inl e ↦ rw (e, mark_in_use) valid
  | inr (meta, e) ↦
      let new : VramPageMeta = record { id = meta.id; size_mib = meta.size_mib; in_use = in_use } in
      let other : (i : ℕ) → lookup i p.pages ≡ none → lookup i (assign id new p.pages) ≡ none =
        λ i none_at.
          lookup-assign_ne id i new p.pages
            (λ same. some-ne-none meta (sym e ∙ ap (λ k. lookup k p.pages) (sym same) ∙ none_at))
          ∙ none_at in
      rw (e, mark_in_use)
        (record {
          counts = valid.counts;
          unused = λ i h. other i (valid.unused i h);
          few = rw (length-assign_old id new meta p.pages e) valid.few;
          zero_free = other 0 valid.zero_free;
        })
]

lookup-remove-none :
    (id i : ℕ) (p : VramPages) → lookup i p.pages ≡ none → lookup i (remove id p.pages) ≡ none
lookup-remove-none id i p h = elim (Bool-cases (i == id)) [
  | inl e ↦ rw (==→eq i id e) (lookup-remove_self id p.pages)
  | inr e ↦ lookup-remove_ne id i p.pages (==→ne i id e) ∙ h
]

destroy-IsValid : (n id : ℕ) (p : VramPages) → IsValid n p → IsValid n (destroy id p).1
unfolding destroy
destroy-IsValid n id p valid = record {
  counts = valid.counts;
  unused = λ i h. lookup-remove-none id i p (valid.unused i h);
  few = omega (arith, valid.few, length-remove id p.pages);
  zero_free = lookup-remove-none id 0 p valid.zero_free;
}

pub Reachable-IsValid : {n : ℕ} {p : VramPages} → Reachable n p → suc n < 2 ^ 64 → IsValid n p
Reachable-IsValid start fits = record {
  counts = refl;
  unused = λ id h. refl;
  few = omega arith;
  zero_free = refl;
}
Reachable-IsValid (created {n} {p} size_mib r) fits =
    create-IsValid n size_mib p fits (Reachable-IsValid r (omega arith))
Reachable-IsValid (marked {n} {p} id in_use r) fits =
    mark_in_use-IsValid n id in_use p (Reachable-IsValid r fits)
Reachable-IsValid (destroyed {n} {p} id r) fits = destroy-IsValid n id p (Reachable-IsValid r fits)

-- After any run of the methods with fewer than 2 ^ 32 - 1 calls of `create`, the next `create`
-- gives an id that is not 0 and that no page has, adds a page that is not in use under it, leaves
-- every other page, and raises the number of pages by one.
pub create-fresh :
    {n : ℕ} {p : VramPages} (size_mib : ℕ)
    → Reachable n p
    → n < 2 ^ 32 - 1
    → (lookup (create size_mib p).0 p.pages ≡ none)
      × ((create size_mib p).0 ≢ 0)
      × (lookup (create size_mib p).0 (create size_mib p).1.pages
          ≡ some (record { id = (create size_mib p).0; size_mib = size_mib; in_use = false }))
      × ((i : ℕ)
          → i ≢ (create size_mib p).0
          → lookup i (create size_mib p).1.pages ≡ lookup i p.pages)
      × (total_pages (create size_mib p).1 ≡ suc (total_pages p))
unfolding create total_pages
create-fresh {n} {p} size_mib r fits =
    let valid = Reachable-IsValid r (omega arith) in
    let fresh = valid.unused p.next_id (omega (arith, valid.counts)) in
    let new : VramPageMeta = record { id = p.next_id; size_mib = size_mib; in_use = false } in
    let len = length-assign_new p.next_id new p.pages fresh in
    (
      fresh,
      λ e. absurd (omega (arith, valid.counts)),
      lookup-assign_self p.next_id new p.pages,
      λ i ne. lookup-assign_ne p.next_id i new p.pages ne,
      rw len (omega (arith, valid.few)),
    )

-- `destroy` tells whether the page exists, takes it away and leaves every other page, and a second
-- call for the same id tells that there is none.
pub destroy-removes :
    (id : ℕ) (p : VramPages)
    → ((destroy id p).0 ≡ has id p.pages)
      × (lookup id (destroy id p).1.pages ≡ none)
      × ((destroy id (destroy id p).1).0 ≡ false)
      × ((i : ℕ) → i ≢ id → lookup i (destroy id p).1.pages ≡ lookup i p.pages)
unfolding destroy
destroy-removes id p = (
  refl,
  lookup-remove_self id p.pages,
  has-none id (remove id p.pages) (lookup-remove_self id p.pages),
  λ i ne. lookup-remove_ne id i p.pages ne,
)
