-- ===== src/Submit/Sha256/Correct.antt =====
-- `sha256` of src/submit/cpu_verify.cc against the standard.
use btc_multipool_cache_mine.Base.{
  ℕ, zero, suc, ◌+◌, ◌*◌, ◌/◌, ◌≤◌, ◌<◌, ◌≡◌, sym, ap, ap₂, ◌∙◌, List, [], ◌++◌, arith, u64, length,
  take, drop, length-take, length-drop, take-append-drop, drop-drop,
}
use mathlib.Core.Path.{◌≡⟨◌⟩◌, ◌∎}
use btc_multipool_cache_mine.Submit.Sha256.{
  sha256_init, sha256_update, sha256_final, sha256_over, initial_state,
}
use btc_multipool_cache_mine.Submit.Sha256.Transform.{transform}
use btc_multipool_cache_mine.Submit.Sha256.Spec.{compress_all, finish}
use btc_multipool_cache_mine.Submit.Sha256.Buffer.{
  holding, update_short, update_block, sha256_update-append,
}
use btc_multipool_cache_mine.Submit.Sha256.Final.{sha256_final-finish}

-- The context takes whole blocks, then the rest, and is finished.
update-finish :
    (k : ℕ) (bytes : List ℕ) (n : ℕ) (st junk : List ℕ)
    → length bytes < 64 * k + 64
    → 64 * k ≤ length bytes
    → length junk ≡ 64
    → sha256_final (sha256_update (holding n st [] junk) bytes)
      ≡ finish (compress_all k st bytes) (drop (64 * k) bytes) (u64 (n + length bytes * 8))
unfolding compress_all
update-finish zero bytes n st junk hi lo fits =
    rw (update_short bytes n st [] junk (omega arith) (omega arith)) (
      sha256_final-finish n st bytes (drop (length bytes) junk)
        (omega (arith, length-drop (length bytes) junk)) (omega arith))
update-finish (suc k) bytes n st junk hi lo fits =
    sha256_final (sha256_update (holding n st [] junk) bytes)
    ≡⟨ ap (λ b. sha256_final (sha256_update (holding n st [] junk) b))
        (sym (take-append-drop 64 bytes)) ⟩
      sha256_final (sha256_update (holding n st [] junk) (first ++ later))
    ≡⟨ ap sha256_final (sha256_update-append (holding n st [] junk) first later) ⟩
      sha256_final (sha256_update (sha256_update (holding n st [] junk) first) later)
    ≡⟨ ap (λ c. sha256_final (sha256_update c later)) (update_block first n st junk first_64 fits) ⟩
      sha256_final (sha256_update (holding (u64 (n + 512)) (transform st first) [] first) later)
    ≡⟨ update-finish k later (u64 (n + 512)) (transform st first) first (omega (arith, later_len))
        (omega (arith, later_len)) first_64 ⟩
      finish (compress_all k (transform st first) later) (drop (64 * k) later)
        (u64 (u64 (n + 512) + length later * 8))
    ≡⟨ ap₂ (finish (compress_all k (transform st first) later))
        (drop-drop (64 * k) 64 (64 * suc k) bytes (omega arith)) (omega (arith, later_len)) ⟩
      finish (compress_all k (transform st first) later) (drop (64 * suc k) bytes)
        (u64 (n + length bytes * 8)) ∎
  where
    first : List ℕ
    first = take 64 bytes

    later : List ℕ
    later = drop 64 bytes

    first_64 : length first ≡ 64
    first_64 = omega (arith, length-take 64 bytes)

    later_len : length later + 64 ≡ length bytes
    later_len = omega (arith, length-drop 64 bytes)

-- What was on the stack does not matter: the blocks of the message are compressed, and the rest is
-- finished with the number of its bits.
pub sha256_over-finish :
    (garbage bytes : List ℕ)
    → length garbage ≡ 64
    → sha256_over garbage bytes
      ≡ finish
          (compress_all (length bytes / 64) initial_state bytes)
          (drop (64 * (length bytes / 64)) bytes)
          (u64 (length bytes * 8))
unfolding sha256_over sha256_init
sha256_over-finish garbage bytes h =
    update-finish (length bytes / 64) bytes 0 initial_state garbage (omega arith) (omega arith) h
    ∙ ap finished zero_first
  where
    finished : ℕ → List ℕ
    finished n =
        finish (compress_all (length bytes / 64) initial_state bytes)
          (drop (64 * (length bytes / 64)) bytes) (u64 n)

    zero_first : 0 + length bytes * 8 ≡ length bytes * 8
    zero_first = omega arith
