-- ===== src/Submit/Sha256/Buffer.antt =====
-- `sha256_update` of src/submit/cpu_verify.cc, block by block.
use btc_multipool_cache_mine.Base.{
  ℕ, suc, ◌+◌, ◌≤◌, ◌<◌, ◌≡◌, refl, sym, ap, ◌∙◌, List, [], ◌∷◌, ◌++◌, append-nil, append_assoc,
  arith, u64, length, drop, set, length-append, set-append, eq→==, ne→==,
}
use btc_multipool_cache_mine.Submit.Sha256.{Sha256Ctx, update_byte, sha256_update}
use btc_multipool_cache_mine.Submit.Sha256.Transform.{transform}

-- A context that has consumed whole blocks and holds the bytes `p` of the next.
abbrev pub holding : ℕ → List ℕ → List ℕ → List ℕ → Sha256Ctx
holding n st p junk = record { bitlen = n; state = st; buf = p ++ junk; datalen = length p }

stored :
    (p : List ℕ) (j : ℕ) (junk : List ℕ) (b : ℕ)
    → set (p ++ j ∷ junk) (length p) b ≡ (p ++ b ∷ []) ++ junk
stored p j junk b =
    set-append p (j ∷ junk) 0 (length p) b (omega arith) ∙ sym (append_assoc p (b ∷ []) junk)

byte_short :
    (n : ℕ) (st p : List ℕ) (j : ℕ) (junk : List ℕ) (b : ℕ)
    → length p + 1 < 64
    → update_byte (holding n st p (j ∷ junk)) b ≡ holding n st (p ++ b ∷ []) junk
unfolding update_byte
byte_short n st p j junk b h =
    rw (ne→== (length p + 1) 64 (omega arith), stored p j junk b, length-append p (b ∷ []))

byte_full :
    (n : ℕ) (st p : List ℕ) (j : ℕ) (b : ℕ)
    → length p + 1 ≡ 64
    → update_byte (holding n st p (j ∷ [])) b
      ≡ holding (u64 (n + 512)) (transform st (p ++ b ∷ [])) [] (p ++ b ∷ [])
unfolding update_byte
byte_full n st p j b h = rw (eq→== (length p + 1) 64 h, stored p j [] b, append-nil (p ++ b ∷ []))

pub update_short :
    (bs : List ℕ) (n : ℕ) (st p junk : List ℕ)
    → length p + length bs < 64
    → length bs ≤ length junk
    → sha256_update (holding n st p junk) bs ≡ holding n st (p ++ bs) (drop (length bs) junk)
unfolding sha256_update
update_short [] n st p junk h fits = rw (append-nil p)
update_short (b ∷ bs) n st p [] h fits = absurd (omega arith)
update_short (b ∷ bs) n st p (j ∷ junk) h fits = rw (byte_short n st p j junk b (omega arith)) (
    update_short bs n st (p ++ b ∷ []) junk (omega (arith, length-append p (b ∷ []))) (omega arith)
    ∙ ap (λ q. holding n st q (drop (length bs) junk)) (append_assoc p (b ∷ []) bs))

pub update_full :
    (bs : List ℕ) (n : ℕ) (st p junk : List ℕ)
    → length p + suc (length bs) ≡ 64
    → length junk ≡ suc (length bs)
    → (b : ℕ)
    → sha256_update (holding n st p junk) (b ∷ bs)
      ≡ holding (u64 (n + 512)) (transform st (p ++ b ∷ bs)) [] (p ++ b ∷ bs)
unfolding sha256_update
update_full bs n st p [] h fits b = absurd (omega arith)
update_full [] n st p (j ∷ []) h fits b = byte_full n st p j b (omega arith)
update_full [] n st p (j ∷ k ∷ junk) h fits b = absurd (omega arith)
update_full (c ∷ bs) n st p (j ∷ junk) h fits b = rw (byte_short n st p j junk b (omega arith)) (
    update_full bs n st (p ++ b ∷ []) junk (omega (arith, length-append p (b ∷ []))) (omega arith) c
    ∙ ap (λ q. holding (u64 (n + 512)) (transform st q) [] q) (append_assoc p (b ∷ []) (c ∷ bs)))

pub sha256_update-append :
    (ctx : Sha256Ctx) (xs ys : List ℕ)
    → sha256_update ctx (xs ++ ys) ≡ sha256_update (sha256_update ctx xs) ys
unfolding sha256_update
sha256_update-append ctx [] ys = refl
sha256_update-append ctx (x ∷ xs) ys = sha256_update-append (update_byte ctx x) xs ys

-- One whole block into an empty buffer.
pub update_block :
    (bs : List ℕ) (n : ℕ) (st junk : List ℕ)
    → length bs ≡ 64
    → length junk ≡ 64
    → sha256_update (holding n st [] junk) bs ≡ holding (u64 (n + 512)) (transform st bs) [] bs
update_block [] n st junk h fits = absurd (omega arith)
update_block (b ∷ bs) n st junk h fits = update_full bs n st [] junk (omega arith) (fits ∙ sym h) b
