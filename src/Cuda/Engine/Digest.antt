-- ===== src/Cuda/Engine/Digest.antt =====
-- The digests of the kernels in src/cuda/engine.cu, as `sha256` of src/submit/cpu_verify.cc.
use btc_multipool_cache_mine.Base.{
  ℕ, ◌*◌, ◌^◌, ◌<◌, ◌≡◌, refl, sym, ap, ◌∙◌, List, [], ◌∷◌, ◌++◌, true, arith, length, take, drop,
  get_or, replicate, length-append, length-take, length-drop, take_exact, drop_exact, AreWords, map,
}
use btc_multipool_cache_mine.Normalize.Endian.{
  bswap32, be_bytes, be_word, le_u32_words_to_be32_bytes,
}
use btc_multipool_cache_mine.Normalize.Endian.Words.{be_bytes_lem, length-be_bytes}
use btc_multipool_cache_mine.Normalize.Endian.Roundtrip.{bswap32-lt, be_word-bytes}
use btc_multipool_cache_mine.Normalize.Midstate.{sha256_midstate_64}
use btc_multipool_cache_mine.Submit.Sha256.{sha256, initial_state}
use btc_multipool_cache_mine.Submit.Sha256.Transform.{transform, digest}
use btc_multipool_cache_mine.Submit.Sha256.Spec.{compress_all, length_bytes}
use btc_multipool_cache_mine.Submit.Sha256.Digest.{length-sha256}
use btc_multipool_cache_mine.Submit.HashTarget.Order.{length-le_u32_words_to_be32_bytes}
use btc_multipool_cache_mine.Cuda.Sha256d.{sha256_compress, words_of, bytes_of, sha256_32_be}
use btc_multipool_cache_mine.Cuda.Sha256d.Host.{
  bytes_of-digest, sha256_compress-transform, words_of-append, finish_16, sha256-finish,
  sha256_32_be-sha256, sha256d_80_be-sha256,
}
use btc_multipool_cache_mine.Cuda.Engine.{
  DeviceJob, ntime_of, header80, used_midstate, tail_padding, from_midstate, stub_digest,
  batch_words, batch_digest, plain_digest,
}

-- From the state after 64 bytes the device finishes a header of 80 as the host does.
pub from_midstate-sha256 :
    (first64 rest : List ℕ)
    → length first64 ≡ 64
    → length rest ≡ 16
    → from_midstate (sha256_midstate_64 first64) (words_of rest) ≡ sha256 (sha256 (first64 ++ rest))
unfolding from_midstate sha256_midstate_64
from_midstate-sha256 first64 rest h r =
    ap sha256_32_be inner ∙ sha256_32_be-sha256 (sha256 (first64 ++ rest)) (length-sha256 _)
  where
    mid : List ℕ
    mid = transform initial_state first64

    padded : List ℕ
    padded = rest ++ (0x80 ∷ (replicate 39 0 ++ length_bytes 640))

    padding : words_of rest ++ tail_padding ≡ words_of padded
    padding = sym (
        words_of-append 4 rest (0x80 ∷ (replicate 39 0 ++ length_bytes 640)) (omega arith)
        ∙ ap (◌++◌ (words_of rest)) (unfold words_of be_word length_bytes in refl))

    split : compress_all 1 initial_state (first64 ++ rest) ≡ mid
    split = unfold compress_all in ap (transform initial_state) (take_exact 64 first64 rest h)

    inner :
        bytes_of (sha256_compress mid (words_of rest ++ tail_padding)) ≡ sha256 (first64 ++ rest)
    inner =
        ap (λ ws. bytes_of (sha256_compress mid ws)) padding
        ∙ bytes_of-digest (sha256_compress mid (words_of padded))
        ∙ ap digest (sha256_compress-transform mid padded)
        ∙ sym (
            sha256-finish (first64 ++ rest) 80 (omega (arith, length-append first64 rest))
            ∙ rw (split, drop_exact 64 first64 rest h) (finish_16 mid rest r))

pub words_of-be_bytes :
    (w : ℕ) (rest : List ℕ) → w < 2 ^ 32 → words_of (be_bytes w ++ rest) ≡ w ∷ words_of rest
unfolding words_of
words_of-be_bytes w rest h = rw (be_bytes_lem w, be_word-bytes w h)

words_of-le_u32_words_to_be32_bytes :
    (ws : List ℕ) → AreWords ws → words_of (le_u32_words_to_be32_bytes ws) ≡ map bswap32 ws
unfolding le_u32_words_to_be32_bytes
words_of-le_u32_words_to_be32_bytes [] h = unfold words_of in refl
words_of-le_u32_words_to_be32_bytes (w ∷ ws) h =
    words_of-be_bytes (bswap32 w) (le_u32_words_to_be32_bytes ws) (bswap32-lt w h.0)
    ∙ ap (◌∷◌ (bswap32 w)) (words_of-le_u32_words_to_be32_bytes ws h.1)

-- The last four words of a header as `kernel_mine_batch` hashes them from a midstate.
abbrev pub last_words : DeviceJob → ℕ → List ℕ
last_words job nonce = get_or job.merkle_root_le 7 0 ∷ ntime_of job ∷ job.nbits ∷ nonce ∷ []

-- Where a job's midstate is that of a first block of 64 bytes, and not all zero, the midstate path
-- of `kernel_mine_batch` gives the double SHA-256 of the block followed by the last four words of
-- the header, each with its least significant byte first.
pub batch_digest-sha256 :
    (job : DeviceJob) (nonce : ℕ) (first64 : List ℕ)
    → length first64 ≡ 64
    → job.midstate_le ≡ sha256_midstate_64 first64
    → used_midstate job.midstate_le ≡ true
    → AreWords (last_words job nonce)
    → batch_digest job nonce
      ≡ sha256 (sha256 (first64 ++ le_u32_words_to_be32_bytes (last_words job nonce)))
unfolding batch_digest batch_words
batch_digest-sha256 job nonce first64 h m u words = rw u (
    ap (λ mid. from_midstate mid (batch_words job nonce)) m
    ∙ ap (from_midstate (sha256_midstate_64 first64))
        (sym (words_of-le_u32_words_to_be32_bytes (last_words job nonce) words))
    ∙ from_midstate-sha256 first64 (le_u32_words_to_be32_bytes (last_words job nonce)) h
        (length-le_u32_words_to_be32_bytes (last_words job nonce)))

length-bytes_of : (ws : List ℕ) → length (bytes_of ws) ≡ 4 * length ws
unfolding bytes_of
length-bytes_of [] = refl
length-bytes_of (w ∷ ws) =
    omega (arith, length-append (be_bytes w) (bytes_of ws), length-be_bytes w, length-bytes_of ws)

pub length-header80 :
    (job : DeviceJob) (nonce : ℕ)
    → length job.prevhash_le ≡ 8
    → length job.merkle_root_le ≡ 8
    → length (header80 job nonce) ≡ 80
unfolding header80
length-header80 job nonce p m = omega (
  arith,
  length-append (be_bytes job.version) (
      bytes_of job.prevhash_le
      ++ (bytes_of job.merkle_root_le
          ++ (be_bytes (ntime_of job) ++ (be_bytes job.nbits ++ be_bytes nonce)))),
  length-append (bytes_of job.prevhash_le) (
      bytes_of job.merkle_root_le
      ++ (be_bytes (ntime_of job) ++ (be_bytes job.nbits ++ be_bytes nonce))),
  length-append (bytes_of job.merkle_root_le)
      (be_bytes (ntime_of job) ++ (be_bytes job.nbits ++ be_bytes nonce)),
  length-append (be_bytes (ntime_of job)) (be_bytes job.nbits ++ be_bytes nonce),
  length-append (be_bytes job.nbits) (be_bytes nonce),
  length-be_bytes job.version,
  length-be_bytes (ntime_of job),
  length-be_bytes job.nbits,
  length-be_bytes nonce,
  length-bytes_of job.prevhash_le,
  length-bytes_of job.merkle_root_le,
)

pub plain_digest-sha256 :
    (job : DeviceJob) (nonce : ℕ)
    → length job.prevhash_le ≡ 8
    → length job.merkle_root_le ≡ 8
    → plain_digest job nonce ≡ sha256 (sha256 (header80 job nonce))
unfolding plain_digest
plain_digest-sha256 job nonce p m =
    sha256d_80_be-sha256 (header80 job nonce) (length-header80 job nonce p m)

pub stub_digest-sha256 :
    (job : DeviceJob) (nonce : ℕ) (first64 : List ℕ)
    → length first64 ≡ 64
    → job.midstate_le ≡ sha256_midstate_64 first64
    → used_midstate job.midstate_le ≡ true
    → length job.prevhash_le ≡ 8
    → length job.merkle_root_le ≡ 8
    → stub_digest job nonce ≡ sha256 (sha256 (first64 ++ take 16 (drop 64 (header80 job nonce))))
unfolding stub_digest
stub_digest-sha256 job nonce first64 h m u p q = rw u (
    ap (λ mid. from_midstate mid (words_of (take 16 (drop 64 (header80 job nonce))))) m
    ∙ from_midstate-sha256 first64 (take 16 (drop 64 (header80 job nonce))) h (
        omega (
          arith,
          length-take 16 (drop 64 (header80 job nonce)),
          length-drop 64 (header80 job nonce),
          length-header80 job nonce p q,
        )))
