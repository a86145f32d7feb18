-- ===== src/Store/Outbox/Drop.antt =====
-- `Outbox::drop` of src/store/outbox.h: the first entry of a submission goes, with its key.
use btc_multipool_cache_mine.Base.{
  ℕ, ◌≡◌, ◌≢◌, refl, ap, ◌∙◌, List, [], ◌∷◌, ◌++◌, Bool, true, false, ◌||◌, append_assoc,
  append-nil, arith, if◌then◌else◌, ◌==◌, ==→ne, eq→==, Bool-cases, inl, inr,
}
use mathlib.Core.Path.{subst}
use btc_multipool_cache_mine.Store.Outbox.{
  PendingSubmit, Outbox, key, key_of, count, erase, matches, drop_loop, drop_entry,
}
use btc_multipool_cache_mine.Store.Outbox.Valid.{IsValid, keys, IsDistinct, AreSeen}

module _ (work_id nonce : ℕ) where
  -- Whether the submission is queued, and the queue without its first entry.
  unfoldable pub queued : List PendingSubmit → Bool
  queued [] = false
  queued (s ∷ rest) = matches work_id nonce s || queued rest

  unfoldable pub without : List PendingSubmit → List PendingSubmit
  without [] = []
  without (s ∷ rest) = if matches work_id nonce s then rest else s ∷ without rest

  abbrev pub dropped : Outbox → Outbox
  dropped o = record {
    q = without o.q;
    seen = if queued o.q then erase (key work_id nonce) o.seen else o.seen;
  }

  after_removal :
      (xs : List PendingSubmit) (o : Outbox)
      → drop_loop work_id nonce true xs o ≡ (true, record o { q = o.q ++ xs })
  unfolding drop_loop
  after_removal [] o = rw (append-nil o.q)
  after_removal (s ∷ xs) o =
      after_removal xs (record o { q = o.q ++ s ∷ [] })
      ∙ ap (λ q. (true, record o { q = q })) (append_assoc o.q (s ∷ []) xs)

  pub key_of-matches :
      (s : PendingSubmit) → matches work_id nonce s ≡ true → key_of s ≡ key work_id nonce
  unfolding key_of
  key_of-matches s h = ground arith

  drop_loop-lem :
      (xs : List PendingSubmit) (o : Outbox)
      → drop_loop work_id nonce false xs o ≡ (
        queued xs,
        record {
          q = o.q ++ without xs;
          seen = if queued xs then erase (key work_id nonce) o.seen else o.seen;
        },
      )
  unfolding drop_loop queued without
  drop_loop-lem [] o = rw (append-nil o.q)
  drop_loop-lem (s ∷ xs) o = elim (Bool-cases (matches work_id nonce s)) [
    | inl yes' ↦ rw yes' (
        rw (key_of-matches s yes')
          (after_removal xs (record o { seen = erase (key work_id nonce) o.seen })))
    | inr no' ↦ rw no' (
        drop_loop-lem xs (record o { q = o.q ++ s ∷ [] })
        ∙ ap
            (λ q. (
              queued xs,
              record {
                q = q;
                seen = if queued xs then erase (key work_id nonce) o.seen else o.seen;
              },
            ))
            (append_assoc o.q (s ∷ []) (without xs)))
  ]

  -- On every outbox, `drop` tells whether the submission was queued, takes its first entry out of
  -- the queue, takes its key out of the set if there was an entry, and leaves the rest in its
  -- order.
  pub drop_entry-dropped : (o : Outbox) → drop_entry work_id nonce o ≡ (queued o.q, dropped o)
  unfolding drop_entry
  drop_entry-dropped o = drop_loop-lem o.q (record o { q = [] })

  queued-key :
      (xs : List PendingSubmit) → queued xs ≡ true → count (key work_id nonce) (keys xs) ≡ true
  unfolding queued count
  queued-key [] h = cc
  queued-key (s ∷ xs) h = elim (Bool-cases (matches work_id nonce s)) [
    | inl same ↦ rw (eq→== (key_of s) (key work_id nonce) (key_of-matches s same))
    | inr other ↦ ground (arith, queued-key xs)
  ]

  count-without :
      (k : ℕ) (xs : List PendingSubmit)
      → count k (keys xs) ≡ false
      → count k (keys (without xs)) ≡ false
  unfolding without count
  count-without k [] h = refl
  count-without k (s ∷ xs) h = ground (arith, count-without k xs)

  without-IsDistinct :
      (xs : List PendingSubmit) → IsDistinct (keys xs) → IsDistinct (keys (without xs))
  unfolding without
  without-IsDistinct [] d = tt
  without-IsDistinct (s ∷ xs) d = elim (Bool-cases (matches work_id nonce s)) [
    | inl same ↦ rw same d.1
    | inr other ↦ rw other (count-without (key_of s) xs d.0, without-IsDistinct xs d.1)
  ]

  AreSeen-without :
      (seen : List ℕ) (xs : List PendingSubmit)
      → AreSeen seen (keys xs)
      → AreSeen seen (keys (without xs))
  unfolding without
  AreSeen-without seen [] a = tt
  AreSeen-without seen (s ∷ xs) a = elim (Bool-cases (matches work_id nonce s)) [
    | inl same ↦ rw same a.1
    | inr other ↦ rw other (a.0, AreSeen-without seen xs a.1)
  ]

count-erase : (k j : ℕ) (seen : List ℕ) → j ≢ k → count j (erase k seen) ≡ count j seen
unfolding count erase
count-erase k j [] ne = refl
count-erase k j (x ∷ seen) ne = ground (arith, count-erase k j seen ne)

count-erase_self : (k : ℕ) (seen : List ℕ) → count k (erase k seen) ≡ false
unfolding count erase
count-erase_self k [] = refl
count-erase_self k (x ∷ seen) = ground (arith, count-erase_self k seen)

AreSeen-erase :
    (k : ℕ) (seen xs : List ℕ) → count k xs ≡ false → AreSeen seen xs → AreSeen (erase k seen) xs
unfolding count
AreSeen-erase k seen [] h a = tt
AreSeen-erase k seen (x ∷ xs) h a = elim (Bool-cases (x == k)) [
  | inl same ↦ absurd (clash same)
  | inr other ↦
      (count-erase k x seen (==→ne x k other) ∙ a.0, AreSeen-erase k seen xs (rw other at h) a.1)
]
  where
    clash : (x == k) ≡ true → ⊥
    clash same = ground (arith, h)

module _ (work_id nonce : ℕ) where
  -- With distinct keys, the entry that goes is the only one of its key.
  gone :
      (xs : List PendingSubmit)
      → IsDistinct (keys xs)
      → queued work_id nonce xs ≡ true
      → count (key work_id nonce) (keys (without work_id nonce xs)) ≡ false
  unfolding queued without count
  gone [] d h = refl
  gone (s ∷ xs) d h = elim (Bool-cases (matches work_id nonce s)) [
    | inl same ↦
        rw same (subst (λ k. count k (keys xs) ≡ false) (key_of-matches work_id nonce s same) d.0)
    | inr other ↦
        let later : queued work_id nonce xs ≡ true = ground arith in
        ground (arith, queued-key work_id nonce xs later, gone xs d.1 later)
  ]

  pub drop_entry-IsValid : (o : Outbox) → IsValid o → IsValid (drop_entry work_id nonce o).1
  drop_entry-IsValid o v =
      rw (drop_entry-dropped work_id nonce o) (elim (Bool-cases (queued work_id nonce o.q)) [
        | inl was ↦ rw was (record {
          distinct = without-IsDistinct work_id nonce o.q v.distinct;
          known =
              AreSeen-erase (key work_id nonce) o.seen (keys (without work_id nonce o.q))
                (gone o.q v.distinct was) (AreSeen-without work_id nonce o.seen o.q v.known);
        })
        | inr not_there ↦ rw not_there (record {
          distinct = without-IsDistinct work_id nonce o.q v.distinct;
          known = AreSeen-without work_id nonce o.seen o.q v.known;
        })
      ])
