-- ===== src/Store/Outbox/Valid.antt =====
-- `Outbox` of src/store/outbox.h: each key is queued at most once, and the set knows it.
use btc_multipool_cache_mine.Base.{
  Option, none, some, ℕ, ◌≡◌, refl, ap, sym, List, [], ◌∷◌, ◌++◌, true, false, ◌||◌, arith, All,
  All-append, map, eq→==, Bool-cases, inl, inr, zero, suc, length, Option-cases,
}
use mathlib.Core.Path.{subst}
use btc_multipool_cache_mine.Store.Outbox.{
  PendingSubmit, Outbox, empty, key_of, count, enqueue, front, try_dequeue, read_record, load_loop,
  load_from_file,
}

abbrev pub keys : List PendingSubmit → List ℕ
keys = map key_of

abbrev pub IsDistinct : List ℕ → Type 0
IsDistinct [] = Unit {0}
IsDistinct (k ∷ ks) = (count k ks ≡ false) × IsDistinct ks

-- Every queued key is in the set.
abbrev pub AreSeen : List ℕ → List ℕ → Type 0
AreSeen seen = All (λ k. count k seen ≡ true)

pub record IsValid (o : Outbox) : Type 0 where
  pub distinct : IsDistinct (keys o.q)
  pub known : AreSeen o.seen (keys o.q)

pub count-append : (k : ℕ) (xs ys : List ℕ) → count k (xs ++ ys) ≡ (count k xs || count k ys)
unfolding count
count-append k [] ys = refl
count-append k (x ∷ xs) ys = ground (arith, count-append k xs ys)

pub IsDistinct-snoc :
    (xs : List ℕ) (k : ℕ) → IsDistinct xs → count k xs ≡ false → IsDistinct (xs ++ k ∷ [])
unfolding count
IsDistinct-snoc [] k d h = (refl, tt)
IsDistinct-snoc (x ∷ xs) k d h =
    ground (arith, count-append x xs (k ∷ []), IsDistinct-snoc xs k d.1)

-- A key that the set does not know is not queued.
pub not_queued :
    (seen xs : List ℕ) (k : ℕ) → AreSeen seen xs → count k seen ≡ false → count k xs ≡ false
unfolding count
not_queued seen [] k a h = refl
not_queued seen (x ∷ xs) k a h = ground (arith, not_queued seen xs k a.1 h)

AreSeen-cons : (j : ℕ) (seen xs : List ℕ) → AreSeen seen xs → AreSeen (j ∷ seen) xs
unfolding count
AreSeen-cons j seen [] a = tt
AreSeen-cons j seen (x ∷ xs) a = (ground arith, AreSeen-cons j seen xs a.1)

pub map-snoc :
    (xs : List PendingSubmit) (s : PendingSubmit) → keys (xs ++ s ∷ []) ≡ keys xs ++ key_of s ∷ []
map-snoc [] s = refl
map-snoc (x ∷ xs) s = ap (◌∷◌ (key_of x)) (map-snoc xs s)

pub enqueue-IsValid : (s : PendingSubmit) (o : Outbox) → IsValid o → IsValid (enqueue s o)
unfolding enqueue
enqueue-IsValid s o v = elim (Bool-cases (count (key_of s) o.seen)) [
  | inl old ↦ rw old v
  | inr new ↦ rw new (record {
    distinct = rw (map-snoc o.q s) (
        IsDistinct-snoc (keys o.q) (key_of s) v.distinct
          (not_queued o.seen (keys o.q) (key_of s) v.known new));
    known = rw (map-snoc o.q s) (
        All-append (λ k. count k (key_of s ∷ o.seen) ≡ true) (keys o.q) (key_of s ∷ [])
          (AreSeen-cons (key_of s) o.seen (keys o.q) v.known) (count_self, tt));
  })
]
  where
    count_self : count (key_of s) (key_of s ∷ o.seen) ≡ true
    count_self = unfold count in rw (eq→== (key_of s) (key_of s) refl)

front-IsValid :
    (xs : List PendingSubmit) (o : Outbox) → xs ≡ o.q → IsValid o → IsValid (front xs o).1
unfolding front
front-IsValid [] o e v = v
front-IsValid (s ∷ rest) o e v = record {
  distinct = (subst (λ ys. IsDistinct (keys ys)) (sym e) v.distinct).1;
  known = (subst (λ ys. AreSeen o.seen (keys ys)) (sym e) v.known).1;
}

pub try_dequeue-IsValid : (o : Outbox) → IsValid o → IsValid (try_dequeue o).1
unfolding try_dequeue
try_dequeue-IsValid o v = front-IsValid o.q o refl v

load_loop-IsValid :
    (fuel : ℕ) (bytes : List ℕ) (o : Outbox) → IsValid o → IsValid (load_loop fuel bytes o)
unfolding load_loop
load_loop-IsValid zero bytes o v = v
load_loop-IsValid (suc fuel) bytes o v = elim (Option-cases (read_record bytes)) [
  | inl e ↦ rw (e, load_loop) v
  | inr (r, e) ↦
      rw (e, load_loop) (load_loop-IsValid fuel r.1 (enqueue r.0 o) (enqueue-IsValid r.0 o v))
]

-- Whatever bytes the file holds, and also where it does not open.
pub load_from_file-IsValid :
    (file : Option (List ℕ)) (o : Outbox) → IsValid o → IsValid (load_from_file file o).1
unfolding load_from_file
load_from_file-IsValid none o v = v
load_from_file-IsValid (some bytes) o v =
    load_loop-IsValid (length bytes) bytes empty (record { distinct = tt; known = tt })
