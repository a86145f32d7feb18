-- ===== src/Normalize/Coinbase.antt =====
-- src/normalize/coinbase.cc: the coinbase transaction from its parts.
use btc_multipool_cache_mine.Base.{List, ℕ, ◌++◌, Bool, if◌then◌else◌, replicate}

pub record CoinbaseParts : Type 0 where
  pub prefix : List ℕ
  pub suffix : List ℕ
  pub has_witness : Bool
  pub witness_commitment : List ℕ

unfoldable pub assemble_coinbase_tx : CoinbaseParts → List ℕ → List ℕ → List ℕ
assemble_coinbase_tx parts extranonce1 extranonce2 =
    ((parts.prefix ++ extranonce1) ++ extranonce2) ++ parts.suffix

unfoldable pub compute_witness_commitment_placeholder : CoinbaseParts → List ℕ
compute_witness_commitment_placeholder parts =
    if parts.has_witness then parts.witness_commitment else replicate 32 0
