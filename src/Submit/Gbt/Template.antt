-- ===== src/Submit/Gbt/Template.antt =====
-- src/submit/gbt_submitter.cc: `updateTemplate`. The reader of JSON gives the members of the template
-- as values; one that throws ends the update where it is.
pub mod Complete
use btc_multipool_cache_mine.Base.{
  ℕ, ◌+◌, List, [], ◌∷◌, ◌++◌, Option, none, some, Bool, true, false, ◌&&◌, if◌then◌else◌, u64,
}
use btc_multipool_cache_mine.Submit.Gbt.{GbtSubmitter, is_empty}
use btc_multipool_cache_mine.Submit.Gbt.Subsidy.{compute_block_subsidy}
use btc_multipool_cache_mine.Submit.Gbt.Coinbase.{
  build_minimal_witness_commitment_coinbase, build_coinbase_tx,
}

-- A member: not there, one whose reading throws, or a text.
pub data Field : Type 0 where
  absent throwing : Field
  text : List ℕ → Field

-- `data`, and `fee` where it is there and is a number.
pub record TemplateTx : Type 0 where
  pub tx_data : Field
  pub fee : Option ℕ

-- `data` of `coinbasetxn`; the transactions, none where they are no array; the commitment where it is
-- a text; the height where it is a number.
pub record BlockTemplate : Type 0 where
  pub coinbasetxn : Field
  pub transactions : List TemplateTx
  pub default_witness_commitment : Option (List ℕ)
  pub height : Option ℕ

-- What the setters set.
pub record CoinbasePolicy : Type 0 where
  pub allow_synth_coinbase : Bool
  pub payout_script_hex : List ℕ
  pub coinbase_tag : List ℕ

-- The texts up to the first that throws, and whether none does.
unfoldable pub read_transactions : List TemplateTx → Bool × List (List ℕ)
read_transactions [] = (true, [])
read_transactions (tx ∷ txs) =
    let (done, texts) = read_transactions txs in
    elim tx.tx_data [ absent ↦ (done, texts) | throwing ↦ (false, []) | text t ↦ (done, t ∷ texts) ]

unfoldable pub sum_fees : ℕ → List TemplateTx → ℕ
sum_fees fees [] = fees
sum_fees fees (tx ∷ txs) = elim tx.fee [
  | none ↦ sum_fees fees txs
  | some fee ↦ sum_fees (u64 (fees + fee)) txs
]

abbrev pub or_zero : Option ℕ → ℕ
or_zero none = 0
or_zero (some n) = n

abbrev pub or_empty : Option (List ℕ) → List ℕ
or_empty none = []
or_empty (some t) = t

unfoldable pub synth_coinbase : CoinbasePolicy → BlockTemplate → List ℕ → List ℕ
synth_coinbase p t commitment =
    let height = or_zero t.height in
    if is_empty p.payout_script_hex
    then or_empty (build_minimal_witness_commitment_coinbase height commitment)
    else or_empty (
        build_coinbase_tx height p.payout_script_hex
          (u64 (compute_block_subsidy height + sum_fees 0 t.transactions)) commitment
          p.coinbase_tag)

abbrev pub committed : CoinbasePolicy → BlockTemplate → List ℕ → Option (List ℕ) → List ℕ
committed p t coinbase none = coinbase
committed p t coinbase (some commitment) =
    if p.allow_synth_coinbase && is_empty coinbase then synth_coinbase p t commitment else coinbase

unfoldable pub update_rest : CoinbasePolicy → BlockTemplate → List ℕ → GbtSubmitter
update_rest p t coinbase =
    let (done, texts) = read_transactions t.transactions in
    record {
      coinbase_hex = if done then committed p t coinbase t.default_witness_commitment else coinbase;
      txs_hex = texts;
    }

abbrev pub with_coinbase : CoinbasePolicy → BlockTemplate → Field → GbtSubmitter
with_coinbase p t absent = update_rest p t []
with_coinbase p t throwing = record { coinbase_hex = []; txs_hex = [] }
with_coinbase p t (text coinbase) = update_rest p t coinbase

-- Nothing of the last template stays.
unfoldable pub update_template : CoinbasePolicy → BlockTemplate → GbtSubmitter
update_template p t = with_coinbase p t t.coinbasetxn
