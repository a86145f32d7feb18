-- ===== src/Store/Outbox/Keys.antt =====
-- The keys of `Outbox` in src/store/outbox.h.
use btc_multipool_cache_mine.Base.{
  ℕ, ◌+◌, ◌*◌, ◌%◌, ◌^◌, ◌<◌, ◌≡◌, ◌↔◌, refl, ap, ◌∙◌, arith, u64, ◌<<<◌, eq→==, Bool-cases, inl,
  inr, bit_xor,
}
use btc_multipool_cache_mine.Base.Bits.{xor_fields}
use btc_multipool_cache_mine.Store.Outbox.{PendingSubmit, Outbox, key, key_of, count, enqueue}

pub key_value : (w n : ℕ) → n < 2 ^ 32 → key w n ≡ w % 2 ^ 32 * 2 ^ 32 + n
unfolding key
key_value w n h = ap (λ x. bit_xor x n) cut ∙ xor_fields 32 (w % 2 ^ 32) n h
  where
    cut : u64 (w <<< 32) ≡ w % 2 ^ 32 * 2 ^ 32
    cut = omega arith

-- Two submissions have one key exactly when their nonces agree and the low 32 bits of their work
-- ids do.
pub key-eq_iff :
    (w n w' n' : ℕ)
    → n < 2 ^ 32
    → n' < 2 ^ 32
    → (key w n ≡ key w' n') ↔ ((w % 2 ^ 32 ≡ w' % 2 ^ 32) × (n ≡ n'))
key-eq_iff w n w' n' h h' = ground (arith, key_value w n h, key_value w' n' h')

-- After a submission with a 32-bit nonce is enqueued, one with the same nonce and a work id that
-- agrees in its low 32 bits is not queued, though its work id may be another.
pub enqueue-collides :
    (s t : PendingSubmit) (o : Outbox)
    → s.nonce < 2 ^ 32
    → t.nonce ≡ s.nonce
    → t.work_id % 2 ^ 32 ≡ s.work_id % 2 ^ 32
    → enqueue t (enqueue s o) ≡ enqueue s o
unfolding enqueue key_of
enqueue-collides s t o h en ew = elim (Bool-cases (count (key s.work_id s.nonce) o.seen)) [
  | inl old ↦ rw (same, old, old)
  | inr new ↦
      rw (same, new)
        (unfold count in rw (eq→== (key s.work_id s.nonce) (key s.work_id s.nonce) refl))
]
  where
    same : key t.work_id t.nonce ≡ key s.work_id s.nonce
    same = (key-eq_iff t.work_id t.nonce s.work_id s.nonce (omega arith) h).1 (ew, en)
