-- ===== src/Tools/Runner/Jobs/Agree.antt =====
-- src/tools/stratum_registry_runner.cpp: where the device and the host look at the same bytes.
use btc_multipool_cache_mine.Base.{
  ℕ, suc, ◌^◌, ◌<◌, ◌≡◌, ◌↔◌, refl, sym, ap, ap₂, ◌∙◌, List, [], ◌∷◌, ◌++◌, append_assoc, arith,
  length, take, drop, map, All-append, AreWords, take_exact, drop_exact,
}
use mathlib.Core.List.{reverse}
use btc_multipool_cache_mine.Normalize.Endian.{bswap32, be_bytes, le_u32_words_to_be32_bytes}
use btc_multipool_cache_mine.Normalize.Endian.Words.{
  byte0, byte1, byte2, byte3, bswap32_sum, be_bytes_lem,
}
use btc_multipool_cache_mine.Normalize.Endian.Roundtrip.{bswap32-lt}
use btc_multipool_cache_mine.Registry.{WorkItem, WorkSlotSnapshot}
use btc_multipool_cache_mine.Cuda.Sha256d.{words_of, bytes_of}
use btc_multipool_cache_mine.Cuda.Engine.{ntime_of, header80}
use btc_multipool_cache_mine.Cuda.Engine.Digest.{words_of-be_bytes}
use btc_multipool_cache_mine.Tools.Runner.Jobs.{target_loop, device_job, host_header}

be_bytes-bswap32 :
    (w : ℕ) → w < 2 ^ 32 → be_bytes (bswap32 w) ≡ byte0 w ∷ byte1 w ∷ byte2 w ∷ byte3 w ∷ []
be_bytes-bswap32 w h = ground (arith, be_bytes_lem (bswap32 w), bswap32_sum w h)

-- For 8 words of 32 bits, the device's share target has the bytes that the host's comparison
-- takes, in the reverse order.
pub share_target_be-reversed :
    (target : List ℕ)
    → length target ≡ 8
    → AreWords target
    → target_loop 8 0 target ≡ reverse (le_u32_words_to_be32_bytes target)
unfolding target_loop le_u32_words_to_be32_bytes
share_target_be-reversed ([]) l w = absurd (omega arith)
share_target_be-reversed (a ∷ []) l w = absurd (omega arith)
share_target_be-reversed (a ∷ b ∷ []) l w = absurd (omega arith)
share_target_be-reversed (a ∷ b ∷ c ∷ []) l w = absurd (omega arith)
share_target_be-reversed (a ∷ b ∷ c ∷ d ∷ []) l w = absurd (omega arith)
share_target_be-reversed (a ∷ b ∷ c ∷ d ∷ e ∷ []) l w = absurd (omega arith)
share_target_be-reversed (a ∷ b ∷ c ∷ d ∷ e ∷ f ∷ []) l w = absurd (omega arith)
share_target_be-reversed (a ∷ b ∷ c ∷ d ∷ e ∷ f ∷ g ∷ []) l w = absurd (omega arith)
share_target_be-reversed (a ∷ b ∷ c ∷ d ∷ e ∷ f ∷ g ∷ h ∷ i ∷ ws) l w = absurd (omega arith)
share_target_be-reversed (a ∷ b ∷ c ∷ d ∷ e ∷ f ∷ g ∷ h ∷ []) l w = rw (
  be_bytes-bswap32 a w.0,
  be_bytes-bswap32 b w.1.0,
  be_bytes-bswap32 c w.1.1.0,
  be_bytes-bswap32 d w.1.1.1.0,
  be_bytes-bswap32 e w.1.1.1.1.0,
  be_bytes-bswap32 f w.1.1.1.1.1.0,
  be_bytes-bswap32 g w.1.1.1.1.1.1.0,
  be_bytes-bswap32 h w.1.1.1.1.1.1.1.0,
  be_bytes_lem a,
  be_bytes_lem b,
  be_bytes_lem c,
  be_bytes_lem d,
  be_bytes_lem e,
  be_bytes_lem f,
  be_bytes_lem g,
  be_bytes_lem h,
)

bytes_of-append : (xs ys : List ℕ) → bytes_of (xs ++ ys) ≡ bytes_of xs ++ bytes_of ys
unfolding bytes_of
bytes_of-append [] ys = refl
bytes_of-append (x ∷ xs) ys =
    ap (◌++◌ (be_bytes x)) (bytes_of-append xs ys)
    ∙ sym (append_assoc (be_bytes x) (bytes_of xs) (bytes_of ys))

le_u32_words_to_be32_bytes-bytes_of :
    (ws : List ℕ) → le_u32_words_to_be32_bytes ws ≡ bytes_of (map bswap32 ws)
unfolding le_u32_words_to_be32_bytes bytes_of
le_u32_words_to_be32_bytes-bytes_of [] = refl
le_u32_words_to_be32_bytes-bytes_of (w ∷ ws) =
    ap (◌++◌ (be_bytes (bswap32 w))) (le_u32_words_to_be32_bytes-bytes_of ws)

words_of-bytes_of : (ws : List ℕ) → AreWords ws → words_of (bytes_of ws) ≡ ws
unfolding bytes_of
words_of-bytes_of [] h = unfold words_of in refl
words_of-bytes_of (w ∷ ws) h =
    words_of-be_bytes w (bytes_of ws) h.0 ∙ ap (◌∷◌ w) (words_of-bytes_of ws h.1)

map-AreWords : (ws : List ℕ) → AreWords ws → AreWords (map bswap32 ws)
map-AreWords [] h = tt
map-AreWords (w ∷ ws) h = (bswap32-lt w h.0, map-AreWords ws h.1)

length-map : (ws : List ℕ) → length (map bswap32 ws) ≡ length ws
length-map [] = refl
length-map (w ∷ ws) = ap suc (length-map ws)

-- A header as its 20 words.
abbrev pub words : ℕ → List ℕ → List ℕ → ℕ → ℕ → ℕ → List ℕ
words version prevhash root ntime nbits nonce =
    version ∷ (prevhash ++ (root ++ (ntime ∷ nbits ∷ nonce ∷ [])))

three : (a b c : ℕ) → bytes_of (a ∷ b ∷ c ∷ []) ≡ be_bytes a ++ (be_bytes b ++ be_bytes c)
unfolding bytes_of be_bytes
three a b c = refl

bytes_of-words :
    (version : ℕ) (prevhash root : List ℕ) (ntime nbits nonce : ℕ)
    → bytes_of (words version prevhash root ntime nbits nonce)
      ≡ be_bytes version
        ++ (bytes_of prevhash
            ++ (bytes_of root ++ (be_bytes ntime ++ (be_bytes nbits ++ be_bytes nonce))))
bytes_of-words version prevhash root ntime nbits nonce =
    unfold bytes_of in
    ap (◌++◌ (be_bytes version)) (
      bytes_of-append prevhash (root ++ (ntime ∷ nbits ∷ nonce ∷ []))
      ∙ ap (◌++◌ (bytes_of prevhash)) (
          bytes_of-append root (ntime ∷ nbits ∷ nonce ∷ [])
          ∙ ap (◌++◌ (bytes_of root)) (three ntime nbits nonce)))

pub host_words :
    (item : WorkItem) (nonce : ℕ)
    → host_header item nonce
      ≡ bytes_of (
          words item.version
            (map bswap32 item.prevhash_le)
            (map bswap32 item.merkle_root_le)
            item.ntime
            item.nbits
            nonce)
unfolding host_header
host_words item nonce =
    ap₂
      (λ p m.
        be_bytes item.version
        ++ (p ++ (m ++ (be_bytes item.ntime ++ (be_bytes item.nbits ++ be_bytes nonce)))))
      (le_u32_words_to_be32_bytes-bytes_of item.prevhash_le)
      (le_u32_words_to_be32_bytes-bytes_of item.merkle_root_le)
    ∙ sym (
        bytes_of-words item.version (map bswap32 item.prevhash_le) (map bswap32 item.merkle_root_le)
          item.ntime item.nbits nonce)

module _ (s : WorkSlotSnapshot) (nonce : ℕ) (p8 : length s.item.prevhash_le ≡ 8)
    (m8 : length s.item.merkle_root_le ≡ 8) (ps : AreWords s.item.prevhash_le)
    (ms : AreWords s.item.merkle_root_le) where
  abbrev pub clamped : ℕ
  clamped = ntime_of (device_job s)

  device_words :
      header80 (device_job s) nonce
      ≡ bytes_of
          (words s.item.version s.item.prevhash_le s.item.merkle_root_le clamped s.item.nbits nonce)
  unfolding header80 device_job
  device_words = sym (
      bytes_of-words s.item.version s.item.prevhash_le s.item.merkle_root_le clamped s.item.nbits
        nonce)

  -- The words of two lists of the same shape are equal part by part.
  parts :
      (p q m n : List ℕ) (t u : ℕ)
      → length p ≡ 8
      → length q ≡ 8
      → length m ≡ 8
      → length n ≡ 8
      → words s.item.version p m t s.item.nbits nonce
        ≡ words s.item.version q n u s.item.nbits nonce
      → (q ≡ p) × (n ≡ m) × (t ≡ u)
  parts p q m n t u hp hq hm hn e =
      let rest : p ++ (m ++ (t ∷ s.item.nbits ∷ nonce ∷ []))
          ≡ q ++ (n ++ (u ∷ s.item.nbits ∷ nonce ∷ [])) =
        ap (drop 1) e in
      let later : m ++ (t ∷ s.item.nbits ∷ nonce ∷ []) ≡ n ++ (u ∷ s.item.nbits ∷ nonce ∷ []) =
        sym (drop_exact 8 p (m ++ (t ∷ s.item.nbits ∷ nonce ∷ [])) hp)
        ∙ ap (drop 8) rest
        ∙ drop_exact 8 q (n ++ (u ∷ s.item.nbits ∷ nonce ∷ [])) hq in
      let last : t ∷ s.item.nbits ∷ nonce ∷ [] ≡ u ∷ s.item.nbits ∷ nonce ∷ [] =
        sym (drop_exact 8 m (t ∷ s.item.nbits ∷ nonce ∷ []) hm)
        ∙ ap (drop 8) later
        ∙ drop_exact 8 n (u ∷ s.item.nbits ∷ nonce ∷ []) hn in
      (
        sym (
            sym (take_exact 8 p (m ++ (t ∷ s.item.nbits ∷ nonce ∷ [])) hp)
            ∙ ap (take 8) rest
            ∙ take_exact 8 q (n ++ (u ∷ s.item.nbits ∷ nonce ∷ [])) hq),
        sym (
            sym (take_exact 8 m (t ∷ s.item.nbits ∷ nonce ∷ []) hm)
            ∙ ap (take 8) later
            ∙ take_exact 8 n (u ∷ s.item.nbits ∷ nonce ∷ []) hn),
        cc,
      )

  abbrev device_list : List ℕ
  device_list =
      words s.item.version s.item.prevhash_le s.item.merkle_root_le clamped s.item.nbits nonce

  abbrev host_list : List ℕ
  host_list =
      words s.item.version (map bswap32 s.item.prevhash_le) (map bswap32 s.item.merkle_root_le)
        s.item.ntime s.item.nbits nonce

  -- For 32-bit fields and hashes of 8 words, the header that the device hashes for a job is the
  -- one that the host puts together for the hit exactly where every word of the two hashes is its
  -- own byte reversal and the clamp leaves the time as it is.
  pub header80-host_header_iff :
      s.item.version < 2 ^ 32
      → clamped < 2 ^ 32
      → s.item.ntime < 2 ^ 32
      → s.item.nbits < 2 ^ 32
      → nonce < 2 ^ 32
      → (header80 (device_job s) nonce ≡ host_header s.item nonce) ↔ (
          (map bswap32 s.item.prevhash_le ≡ s.item.prevhash_le)
          × (map bswap32 s.item.merkle_root_le ≡ s.item.merkle_root_le)
          × (clamped ≡ s.item.ntime))
  header80-host_header_iff v c t b n = (
    λ e.
        parts s.item.prevhash_le (map bswap32 s.item.prevhash_le) s.item.merkle_root_le
          (map bswap32 s.item.merkle_root_le) clamped s.item.ntime p8
          (length-map s.item.prevhash_le ∙ p8) m8 (length-map s.item.merkle_root_le ∙ m8)
          (sym (words_of-bytes_of device_list (v, device_fits))
            ∙ ap words_of (sym device_words ∙ e ∙ host_words s.item nonce)
            ∙ words_of-bytes_of host_list (v, host_fits)),
    λ e.
        device_words
        ∙ ap bytes_of (
            ap₂ (λ p m. words s.item.version p m clamped s.item.nbits nonce) (sym e.0) (sym e.1)
            ∙ ap
                (λ u.
                  words s.item.version (map bswap32 s.item.prevhash_le)
                    (map bswap32 s.item.merkle_root_le) u s.item.nbits nonce)
                e.2)
        ∙ sym (host_words s.item nonce),
  )
    where
      device_fits :
          AreWords
            (s.item.prevhash_le ++ (s.item.merkle_root_le ++ (clamped ∷ s.item.nbits ∷ nonce ∷ [])))
      device_fits =
          All-append (λ w. w < 2 ^ 32) s.item.prevhash_le
            (s.item.merkle_root_le ++ (clamped ∷ s.item.nbits ∷ nonce ∷ [])) ps
            (All-append (λ w. w < 2 ^ 32) s.item.merkle_root_le
              (clamped ∷ s.item.nbits ∷ nonce ∷ []) ms (c, (b, (n, tt))))

      host_fits : AreWords (
          map bswap32 s.item.prevhash_le
          ++ (map bswap32 s.item.merkle_root_le ++ (s.item.ntime ∷ s.item.nbits ∷ nonce ∷ [])))
      host_fits =
          All-append (λ w. w < 2 ^ 32) (map bswap32 s.item.prevhash_le)
            (map bswap32 s.item.merkle_root_le ++ (s.item.ntime ∷ s.item.nbits ∷ nonce ∷ []))
            (map-AreWords s.item.prevhash_le ps)
            (All-append (λ w. w < 2 ^ 32) (map bswap32 s.item.merkle_root_le)
              (s.item.ntime ∷ s.item.nbits ∷ nonce ∷ []) (map-AreWords s.item.merkle_root_le ms)
              (t, (b, (n, tt))))
