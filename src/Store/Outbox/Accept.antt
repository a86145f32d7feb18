-- ===== src/Store/Outbox/Accept.antt =====
-- `Outbox` of src/store/outbox.h: `drop` after `enqueue`.
use btc_multipool_cache_mine.Base.{
  ℕ, ◌≡◌, refl, ap, ◌∙◌, List, [], ◌∷◌, ◌++◌, Bool, true, false, ◌||◌, arith, ◌==◌, eq→==,
  Bool-cases, inl, inr,
}
use btc_multipool_cache_mine.Store.Outbox.{
  PendingSubmit, Outbox, key, key_of, count, erase, enqueue, matches, drop_entry,
}
use btc_multipool_cache_mine.Store.Outbox.Valid.{IsValid, keys, not_queued}
use btc_multipool_cache_mine.Store.Outbox.Drop.{
  queued, without, dropped, drop_entry-dropped, key_of-matches,
}

erase-absent : (k : ℕ) (ks : List ℕ) → count k ks ≡ false → erase k ks ≡ ks
unfolding count erase
erase-absent k [] h = refl
erase-absent k (j ∷ ks) h = elim (Bool-cases (j == k)) [
  | inl e ↦ absurd (ground arith)
  | inr e ↦ rw e (ap (λ ys. j ∷ ys) (erase-absent k ks (rw e at h)))
]

matches_self : (s : PendingSubmit) → matches s.work_id s.nonce s ≡ true
matches_self s = rw (eq→== s.work_id s.work_id refl, eq→== s.nonce s.nonce refl)

without_head : (b c : Bool) → (b || c) ≡ false → c ≡ false
without_head b c h = ground arith

-- Behind a queue without its key, a submission is the first entry that matches.
last_matches :
    (s : PendingSubmit) (xs : List PendingSubmit)
    → count (key_of s) (keys xs) ≡ false
    → (queued s.work_id s.nonce (xs ++ s ∷ []) ≡ true)
      × (without s.work_id s.nonce (xs ++ s ∷ []) ≡ xs)
unfolding queued without count key_of
last_matches s [] h = rw (matches_self s) (refl, refl)
last_matches s (x ∷ xs) h = elim (Bool-cases (matches s.work_id s.nonce x)) [
  | inl same ↦
      let k : key_of x ≡ key s.work_id s.nonce = key_of-matches s.work_id s.nonce x same in
      absurd (ground (arith, eq→== (key_of x) (key_of s) k))
  | inr other ↦
      let rest =
        last_matches s xs (without_head (key_of x == key_of s) (count (key_of s) (keys xs)) h) in
      rw (other, rest.0, rest.1) (refl, refl)
]

forgets :
    (s : PendingSubmit) (seen : List ℕ)
    → count (key_of s) seen ≡ false
    → erase (key s.work_id s.nonce) (key_of s ∷ seen) ≡ seen
unfolding erase key_of
forgets s seen h =
    rw (eq→== (key s.work_id s.nonce) (key s.work_id s.nonce) refl)
      (erase-absent (key s.work_id s.nonce) seen h)

pub drop_entry-enqueue :
    (s : PendingSubmit) (o : Outbox)
    → IsValid o
    → count (key_of s) o.seen ≡ false
    → drop_entry s.work_id s.nonce (enqueue s o) ≡ (true, o)
unfolding enqueue
drop_entry-enqueue s o v new =
    let last = last_matches s o.q (not_queued o.seen (keys o.q) (key_of s) v.known new) in
    let added : Outbox = record { q = o.q ++ s ∷ []; seen = key_of s ∷ o.seen } in
    rw new (
      drop_entry-dropped s.work_id s.nonce added
      ∙ rw (dropped, last.0, last.1)
          (ap (λ ks. (true, record { q = o.q; seen = ks })) (forgets s o.seen new)))
