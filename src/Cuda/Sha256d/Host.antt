-- ===== src/Cuda/Sha256d/Host.antt =====
-- src/cuda/sha256d.cuh against src/submit/cpu_verify.cc: the device and the host hash alike.
use btc_multipool_cache_mine.Base.{
  ℕ, zero, suc, ◌*◌, ◌≡◌, refl, sym, ap, ◌∙◌, ◌/◌, List, [], ◌∷◌, ◌++◌, arith, u32, u64, length,
  take, drop, replicate, length-drop, take_all,
}
use mathlib.Core.List.{reverse}
use btc_multipool_cache_mine.Submit.Sha256.{sha256, initial_state}
use btc_multipool_cache_mine.Submit.Sha256.Transform.{
  transform, digest, load_words, next_word, extend_words, round_step, rounds, rotr, Vars, k_table,
}
use btc_multipool_cache_mine.Submit.Sha256.Spec.{compress_all, finish, length_bytes}
use btc_multipool_cache_mine.Submit.Sha256.Correct.{sha256_over-finish}
use btc_multipool_cache_mine.Submit.Sha256.Digest.{length-sha256}
use btc_multipool_cache_mine.Normalize.Endian.{be_word, be_bytes}
use btc_multipool_cache_mine.Cuda.Sha256d.{
  schedule_word, schedule, compress_step, compress_steps, sha256_compress, words_of, bytes_of,
  second_block, sha256_80_be, digest_block, sha256_32_be, sha256d_80_be,
}

schedule_word-next_word : (w : List ℕ) → schedule_word w ≡ next_word w
unfolding schedule_word next_word rotr
schedule_word-next_word w = ap u32 (omega arith)

schedule-extend_words : (n : ℕ) (w : List ℕ) → schedule n w ≡ extend_words n w
unfolding schedule extend_words
schedule-extend_words zero w = refl
schedule-extend_words (suc n) w =
    schedule-extend_words n (schedule_word w ∷ w)
    ∙ ap (λ v. extend_words n (v ∷ w)) (schedule_word-next_word w)

compress_steps-rounds : (ks ws : List ℕ) (v : Vars) → compress_steps v ks ws ≡ rounds v ks ws
unfolding compress_steps rounds round_step rotr
compress_steps-rounds [] ws v = refl
compress_steps-rounds (k ∷ ks) [] v = refl
compress_steps-rounds (k ∷ ks) (w ∷ ws) v = compress_steps-rounds ks ws (compress_step v k w)

words_of-load_words : (bs : List ℕ) → words_of bs ≡ load_words bs
unfolding words_of load_words
words_of-load_words [] = refl
words_of-load_words (a ∷ []) = refl
words_of-load_words (a ∷ b ∷ []) = refl
words_of-load_words (a ∷ b ∷ c ∷ []) = refl
words_of-load_words (a ∷ b ∷ c ∷ d ∷ bs) = ap (◌∷◌ (be_word a b c d)) (words_of-load_words bs)

pub bytes_of-digest : (ws : List ℕ) → bytes_of ws ≡ digest ws
unfolding bytes_of digest
bytes_of-digest [] = refl
bytes_of-digest (w ∷ ws) = ap (◌++◌ (be_bytes w)) (bytes_of-digest ws)

-- The compression function on the words of a block is that of the host on the block.
pub sha256_compress-transform :
    (state block : List ℕ) → sha256_compress state (words_of block) ≡ transform state block
unfolding sha256_compress transform
sha256_compress-transform state block = rw (
  words_of-load_words block,
  schedule-extend_words 48 (reverse (load_words block)),
  compress_steps-rounds k_table (reverse (extend_words 48 (reverse (load_words block)))) _,
)

pub words_of-append :
    (k : ℕ) (xs ys : List ℕ) → length xs ≡ 4 * k → words_of (xs ++ ys) ≡ words_of xs ++ words_of ys
unfolding words_of
words_of-append k [] ys h = refl
words_of-append k (a ∷ []) ys h = absurd (omega arith)
words_of-append k (a ∷ b ∷ []) ys h = absurd (omega arith)
words_of-append k (a ∷ b ∷ c ∷ []) ys h = absurd (omega arith)
words_of-append zero (a ∷ b ∷ c ∷ d ∷ xs) ys h = absurd (omega arith)
words_of-append (suc k) (a ∷ b ∷ c ∷ d ∷ xs) ys h =
    ap (◌∷◌ (be_word a b c d)) (words_of-append k xs ys (omega arith))

-- A last block with a rest of 16 bytes, and one with a rest of 32.
pub finish_16 :
    (st rest : List ℕ)
    → length rest ≡ 16
    → finish st rest 640
      ≡ digest (transform st (rest ++ (0x80 ∷ (replicate 39 0 ++ length_bytes 640))))
unfolding finish
finish_16 st rest h = rw h

pub finish_32 :
    (st rest : List ℕ)
    → length rest ≡ 32
    → finish st rest 256
      ≡ digest (transform st (rest ++ (0x80 ∷ (replicate 23 0 ++ length_bytes 256))))
unfolding finish
finish_32 st rest h = rw h

pub sha256-finish :
    (bytes : List ℕ) (n : ℕ)
    → length bytes ≡ n
    → sha256 bytes
      ≡ finish
          (compress_all (n / 64) initial_state bytes)
          (drop (64 * (n / 64)) bytes)
          (u64 (n * 8))
unfolding sha256
sha256-finish bytes n h = rw (← h) (sha256_over-finish (replicate 64 0) bytes refl)

second_block-rest :
    (header : List ℕ)
    → length header ≡ 80
    → second_block header ≡ drop 64 header ++ (0x80 ∷ (replicate 39 0 ++ length_bytes 640))
unfolding second_block length_bytes
second_block-rest header h =
    ap (λ r. r ++ (0x80 ∷ (replicate 39 0 ++ length_bytes 640)))
      (take_all 16 (drop 64 header) (omega (arith, length-drop 64 header)))

pub sha256_80_be-sha256 :
    (header : List ℕ) → length header ≡ 80 → sha256_80_be header ≡ sha256 header
unfolding sha256_80_be compress_all
sha256_80_be-sha256 header h =
    bytes_of-digest (
      sha256_compress (sha256_compress initial_state (words_of (take 64 header)))
        (words_of (second_block header)))
    ∙ ap digest (
        ap (λ st. sha256_compress st (words_of (second_block header)))
          (sha256_compress-transform initial_state (take 64 header))
        ∙ sha256_compress-transform (transform initial_state (take 64 header)) (second_block header)
        ∙ ap (transform (transform initial_state (take 64 header))) (second_block-rest header h))
    ∙ sym (
        sha256-finish header 80 h
        ∙ finish_16 (transform initial_state (take 64 header)) (drop 64 header)
            (omega (arith, length-drop 64 header)))

pub sha256_32_be-sha256 : (t1 : List ℕ) → length t1 ≡ 32 → sha256_32_be t1 ≡ sha256 t1
unfolding sha256_32_be compress_all
sha256_32_be-sha256 t1 h =
    rw
      (
        bytes_of-digest (sha256_compress initial_state (digest_block t1)),
        block,
        sha256_compress-transform initial_state
            (t1 ++ (0x80 ∷ (replicate 23 0 ++ length_bytes 256))),
      )
      (sym (sha256-finish t1 32 h ∙ finish_32 initial_state t1 h))
  where
    block : digest_block t1 ≡ words_of (t1 ++ (0x80 ∷ (replicate 23 0 ++ length_bytes 256)))
    block =
        unfold digest_block in
        sym (
          words_of-append 8 t1 (0x80 ∷ (replicate 23 0 ++ length_bytes 256)) (omega arith)
          ∙ ap (◌++◌ (words_of t1)) (unfold words_of be_word length_bytes in refl))

-- On every header of 80 bytes, the device's double SHA-256 is that of the CPU.
pub sha256d_80_be-sha256 :
    (header : List ℕ) → length header ≡ 80 → sha256d_80_be header ≡ sha256 (sha256 header)
unfolding sha256d_80_be
sha256d_80_be-sha256 header h =
    ap sha256_32_be (sha256_80_be-sha256 header h)
    ∙ sha256_32_be-sha256 (sha256 header) (length-sha256 header)
