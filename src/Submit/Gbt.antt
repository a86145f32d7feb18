-- ===== src/Submit/Gbt.antt =====
-- src/submit/gbt_submitter.cc: a block as the hexadecimal text that `submitblock` takes.
-- Text is the list of its character codes. The client that calls the node is an argument.
pub mod Hex
pub mod Digits
pub mod VarInt
pub mod Subsidy
pub mod Coinbase
pub mod Block
pub mod Template
use btc_multipool_cache_mine.Base.{
  ℕ, zero, suc, ◌+◌, List, [], ◌∷◌, ◌++◌, Option, none, some, Bool, true, false, if◌then◌else◌,
  length,
}
use Hex.{bytes_to_hex, encode_var_int_hex}

-- The cached pieces of a template.
pub record GbtSubmitter : Type 0 where
  pub coinbase_hex : List ℕ
  pub txs_hex : List (List ℕ)

unfoldable pub is_empty {ℓ} : {A : Type ℓ} → List A → Bool
is_empty [] = true
is_empty (x ∷ xs) = false

unfoldable pub has_coinbase : GbtSubmitter → Bool
has_coinbase g = if is_empty g.coinbase_hex then false else true

-- `for (const auto& tx : txs_hex_) block_hex += tx;`
unfoldable pub append_all : List ℕ → List (List ℕ) → List ℕ
append_all block_hex [] = block_hex
append_all block_hex (tx ∷ txs) = append_all (block_hex ++ tx) txs

unfoldable pub build_block_hex : List ℕ → GbtSubmitter → List ℕ
build_block_hex header80_be g =
    let tx_count = (if is_empty g.coinbase_hex then 0 else 1) + length g.txs_hex in
    let start = bytes_to_hex header80_be ++ encode_var_int_hex tx_count in
    let with_coinbase = if is_empty g.coinbase_hex then start else start ++ g.coinbase_hex in
    append_all with_coinbase g.txs_hex

-- `rpc_.call("submitblock", …)` is `call`: whether the node gave a result.
unfoldable pub submit_header : (List ℕ → Bool) → List ℕ → GbtSubmitter → Bool
submit_header call header80_be g =
    if is_empty g.coinbase_hex then false else call (build_block_hex header80_be g)
