-- ===== src/Submit/Router/Effects.antt =====
-- `SubmitRouter` of src/submit/submit_router.cc: which hits pass, and what acceptance leaves behind.
use btc_multipool_cache_mine.Base.{
  ℕ, ◌^◌, ◌<◌, ◌≤◌, ◌≡◌, ◌↔◌, refl, ap, sym, ◌∙◌, List, [], ◌∷◌, some, true, false, arith, length,
  replicate, take, Bool-cases, inl, inr,
}
use btc_multipool_cache_mine.Base.Value.{be_value}
use btc_multipool_cache_mine.Submit.Sha256.{sha256}
use btc_multipool_cache_mine.Submit.Sha256.Spec.{standard}
use btc_multipool_cache_mine.Submit.Sha256.Standard.{sha256_over-standard}
use btc_multipool_cache_mine.Submit.Sha256.Digest.{sha256-AreBytes, length-sha256}
use btc_multipool_cache_mine.Submit.HashTarget.{is_hash_leq_target}
use btc_multipool_cache_mine.Submit.HashTarget.Order.{is_hash_leq_target_iff, target_value}
use btc_multipool_cache_mine.Store.Outbox.{
  Outbox, PendingSubmit, key, key_of, count, enqueue, drop_entry,
}
use btc_multipool_cache_mine.Store.Outbox.Valid.{IsValid}
use btc_multipool_cache_mine.Store.Outbox.Accept.{drop_entry-enqueue}
use btc_multipool_cache_mine.Submit.Router.{
  SubmitRouter, enqueue_in, verify_and_submit, drop_in, on_accepted,
}

pub sha256-standard : (bytes : List ℕ) → length bytes < 2 ^ 37 → sha256 bytes ≡ standard bytes
unfolding sha256
sha256-standard bytes h = sha256_over-standard (replicate 64 0) bytes refl h

-- For a header of 80 bytes and a target of 8 words, `verifyAndSubmit` accepts exactly when the
-- double SHA-256 of the header, as a number with its first byte the most significant, is at most
-- the number of the target.
pub verify_and_submit_iff :
    (header target : List ℕ) (work_id nonce : ℕ) (r : SubmitRouter)
    → length header ≡ 80
    → length target ≡ 8
    → ((verify_and_submit header target work_id nonce r).result ≡ true)
      ↔ (be_value (standard (standard header)) ≤ target_value target)
unfolding verify_and_submit
verify_and_submit_iff header target work_id nonce r l m =
    let hash : sha256 (sha256 header) ≡ standard (standard header) =
      sha256-standard (sha256 header) (omega (arith, length-sha256 header))
      ∙ ap standard (sha256-standard header (omega (arith, l))) in
    let order =
      is_hash_leq_target_iff (sha256 (sha256 header)) target (length-sha256 (sha256 header))
        (sha256-AreBytes (sha256 header)) m in
    elim (Bool-cases (is_hash_leq_target (sha256 (sha256 header)) target)) [
      | inl low ↦ rw (low, ← hash) (λ _. order.0 low, λ _. refl)
      | inr high ↦ rw (high, ← hash) (λ e. absurd (ground arith), λ le. sym high ∙ order.1 le)
    ]

-- A router with a callback and this outbox.
abbrev pub with_outbox : Outbox → SubmitRouter
with_outbox o = record { has_cb = true; outbox = some o }

-- With a callback and a valid outbox that does not know the key of the hit, an accepted hit is
-- given to the callback as it came, and `onAccepted` for it then brings the router back to what it
-- was before.
pub on_accepted-verify_and_submit :
    (header target : List ℕ) (work_id nonce : ℕ) (o : Outbox)
    → IsValid o
    → count (key work_id nonce) o.seen ≡ false
    → (verify_and_submit header target work_id nonce (with_outbox o)).result ≡ true
    → ((verify_and_submit header target work_id nonce (with_outbox o)).called
        ≡ record { work_id = work_id; nonce = nonce; header80 = take 80 header } ∷ [])
      × (on_accepted work_id nonce
            (verify_and_submit header target work_id nonce (with_outbox o)).router
          ≡ with_outbox o)
unfolding verify_and_submit on_accepted drop_in enqueue_in
on_accepted-verify_and_submit header target work_id nonce o v new accepted =
    elim (Bool-cases (is_hash_leq_target (sha256 (sha256 header)) target)) [
      | inl low ↦ rw low (refl, ap (λ d. with_outbox d.1) undone)
      | inr high ↦ absurd (ground arith)
    ]
  where
    s : PendingSubmit
    s = record { work_id = work_id; nonce = nonce; header80 = take 80 header }

    undone : drop_entry work_id nonce (enqueue s o) ≡ (true, o)
    undone = drop_entry-enqueue s o v (unfold key_of in new)
