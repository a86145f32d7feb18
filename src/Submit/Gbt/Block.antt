-- ===== src/Submit/Gbt/Block.antt =====
-- `buildBlockHex` of src/submit/gbt_submitter.cc read back: the header, the count, the transactions.
use btc_multipool_cache_mine.Base.{
  ℕ, suc, ◌+◌, ◌^◌, ◌<◌, ◌≡◌, ap, sym, ◌∙◌, List, [], ◌∷◌, ◌++◌, append_assoc, append-nil, some,
  arith, if◌then◌else◌, length, take, drop, take_exact, drop_exact,
}
use btc_multipool_cache_mine.Submit.Gbt.{GbtSubmitter, is_empty, append_all, build_block_hex}
use btc_multipool_cache_mine.Submit.Gbt.Hex.{bytes_to_hex, encode_var_int_hex}
use btc_multipool_cache_mine.Submit.Gbt.Digits.{length-bytes_to_hex}
use btc_multipool_cache_mine.Submit.Gbt.VarInt.{
  read_compact_size, read_compact_size-encode_var_int_hex,
}

abbrev pub joined : List (List ℕ) → List ℕ
joined [] = []
joined (tx ∷ txs) = tx ++ joined txs

append_all-joined : (txs : List (List ℕ)) (b : List ℕ) → append_all b txs ≡ b ++ joined txs
unfolding append_all
append_all-joined [] b = sym (append-nil b)
append_all-joined (tx ∷ txs) b = append_all-joined txs (b ++ tx) ∙ append_assoc b tx (joined txs)

-- The transactions of the block, the coinbase first where there is one.
abbrev pub transactions : GbtSubmitter → List (List ℕ)
transactions g = if is_empty g.coinbase_hex then g.txs_hex else g.coinbase_hex ∷ g.txs_hex

pub build_block_hex-joined :
    (coinbase : List ℕ) (txs : List (List ℕ)) (header : List ℕ)
    → (let g : GbtSubmitter = record { coinbase_hex = coinbase; txs_hex = txs } in
        build_block_hex header g
        ≡ bytes_to_hex header
          ++ (encode_var_int_hex (length (transactions g)) ++ joined (transactions g)))
unfolding build_block_hex is_empty
build_block_hex-joined [] txs header =
    let count : 0 + length txs ≡ length txs = omega arith in
    append_all-joined txs (bytes_to_hex header ++ encode_var_int_hex (0 + length txs))
    ∙ rw (count, append_assoc (bytes_to_hex header) (encode_var_int_hex (length txs)) (joined txs))
build_block_hex-joined (c ∷ cs) txs header =
    let coinbase = c ∷ cs in
    let count : 1 + length txs ≡ suc (length txs) = omega arith in
    let start = bytes_to_hex header ++ encode_var_int_hex (1 + length txs) in
    append_all-joined txs (start ++ coinbase)
    ∙ rw (
      count,
      append_assoc (bytes_to_hex header ++ encode_var_int_hex (suc (length txs))) coinbase
          (joined txs),
      append_assoc (bytes_to_hex header) (encode_var_int_hex (suc (length txs)))
          (coinbase ++ joined txs),
    )

count-lt :
    (coinbase : List ℕ) (txs : List (List ℕ))
    → length txs + 1 < 2 ^ 64
    → length (transactions (record { coinbase_hex = coinbase; txs_hex = txs })) < 2 ^ 64
unfolding is_empty
count-lt [] txs h = omega arith
count-lt (c ∷ cs) txs h = omega arith

-- For a header of 80 bytes and fewer than 2 ^ 64 - 1 other transactions, the text of the block
-- begins with the header in 160 digits, and a reader of CompactSize then finds the number of
-- transactions, the coinbase counted where there is one, followed by their texts in order.
pub build_block_hex-reads :
    (header : List ℕ) (g : GbtSubmitter)
    → length header ≡ 80
    → length g.txs_hex + 1 < 2 ^ 64
    → (take 160 (build_block_hex header g) ≡ bytes_to_hex header)
      × (read_compact_size (drop 160 (build_block_hex header g))
          ≡ some (length (transactions g), joined (transactions g)))
build_block_hex-reads header g h few =
    let all = build_block_hex-joined g.coinbase_hex g.txs_hex header in
    let body = encode_var_int_hex (length (transactions g)) ++ joined (transactions g) in
    let start : length (bytes_to_hex header) ≡ 160 =
      length-bytes_to_hex header ∙ omega (arith, h) in
    (
      ap (take 160) all ∙ take_exact 160 (bytes_to_hex header) body start,
      ap (λ text. read_compact_size (drop 160 text)) all
          ∙ ap read_compact_size (drop_exact 160 (bytes_to_hex header) body start)
          ∙ read_compact_size-encode_var_int_hex (length (transactions g)) (joined (transactions g))
              (count-lt g.coinbase_hex g.txs_hex few),
    )
