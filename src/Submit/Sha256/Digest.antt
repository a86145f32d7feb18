-- ===== src/Submit/Sha256/Digest.antt =====
-- The shape of what `sha256` of src/submit/cpu_verify.cc stores: 32 bytes.
use btc_multipool_cache_mine.Base.{
  ℕ, ◌^◌, ◌<◌, ◌≡◌, refl, List, [], ◌∷◌, length, All-append, AreBytes,
}
use btc_multipool_cache_mine.Normalize.Endian.{be_bytes}
use btc_multipool_cache_mine.Normalize.Endian.Words.{be_bytes-AreBytes}
use btc_multipool_cache_mine.Submit.Sha256.Transform.{transform, digest}
use btc_multipool_cache_mine.Submit.Sha256.{sha256_final, sha256_over, sha256}

digest-AreBytes : (ws : List ℕ) → AreBytes (digest ws)
unfolding digest
digest-AreBytes [] = tt
digest-AreBytes (w ∷ ws) =
    All-append (λ b. b < 2 ^ 8) (be_bytes w) (digest ws) (be_bytes-AreBytes w) (digest-AreBytes ws)

length-digest : (st block : List ℕ) → length (digest (transform st block)) ≡ 32
unfolding digest transform be_bytes
length-digest st block = refl

pub sha256-AreBytes : (bytes : List ℕ) → AreBytes (sha256 bytes)
unfolding sha256 sha256_over sha256_final
sha256-AreBytes bytes = digest-AreBytes _

pub length-sha256 : (bytes : List ℕ) → length (sha256 bytes) ≡ 32
unfolding sha256 sha256_over sha256_final
length-sha256 bytes = length-digest _ _
