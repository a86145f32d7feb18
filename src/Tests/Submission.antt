-- ===== src/Tests/Submission.antt =====
-- The router, and the text of a block.
use btc_multipool_cache_mine.Base.{
  ℕ, ◌≤◌, ◌≡◌, ◌↔◌, refl, List, [], ◌∷◌, some, none, true, false, ◌+◌, ◌++◌, arith, replicate, take,
  drop,
}
use btc_multipool_cache_mine.Base.Value.{be_value}
use btc_multipool_cache_mine.Normalize.Endian.{be_bytes, bswap32}
use btc_multipool_cache_mine.Submit.Sha256.{
  sha256, sha256_over, sha256_init, sha256_update, update_byte, sha256_final, pad_state, fill_zero,
  put_bitlen, clear_front,
}
use btc_multipool_cache_mine.Submit.Sha256.Transform.{transform, digest}
use btc_multipool_cache_mine.Submit.HashTarget.{is_hash_leq_target, leq_bytes, target_be}
use btc_multipool_cache_mine.Submit.Sha256.Spec.{standard}
use btc_multipool_cache_mine.Submit.HashTarget.Order.{target_value}
use btc_multipool_cache_mine.Submit.Router.{verify_and_submit, on_accepted}
use btc_multipool_cache_mine.Submit.Router.Effects.{
  with_outbox, verify_and_submit_iff, on_accepted-verify_and_submit,
}
use btc_multipool_cache_mine.Submit.Gbt.Template.{
  text, BlockTemplate, CoinbasePolicy, update_template,
}
use btc_multipool_cache_mine.Submit.Gbt.Template.Complete.{template_block-reads}
use btc_multipool_cache_mine.Submit.Gbt.{GbtSubmitter, build_block_hex}
use btc_multipool_cache_mine.Submit.Gbt.Hex.{bytes_to_hex}
use btc_multipool_cache_mine.Submit.Gbt.VarInt.{read_compact_size}
use btc_multipool_cache_mine.Submit.Gbt.Block.{joined}
use btc_multipool_cache_mine.Store.Outbox.{empty, count}
use btc_multipool_cache_mine.Tests.Queues.{empty-IsValid}

abbrev header : List ℕ
header = replicate 80 1

abbrev easy : List ℕ
easy = replicate 8 0xffffffff

verify_and_submit_iff_example :
    ((verify_and_submit header easy 7 9 (with_outbox empty)).result ≡ true)
    ↔ (be_value (standard (standard header)) ≤ target_value easy)
verify_and_submit_iff_example = verify_and_submit_iff header easy 7 9 (with_outbox empty) refl refl

accepted : (verify_and_submit header easy 7 9 (with_outbox empty)).result ≡ true
unfolding verify_and_submit is_hash_leq_target leq_bytes target_be be_bytes bswap32 sha256
    sha256_over sha256_init sha256_update update_byte sha256_final transform digest pad_state
    fill_zero put_bitlen clear_front
accepted = refl

on_accepted-verify_and_submit_example :
    ((verify_and_submit header easy 7 9 (with_outbox empty)).called
      ≡ record { work_id = 7; nonce = 9; header80 = take 80 header } ∷ [])
    × (on_accepted 7 9 (verify_and_submit header easy 7 9 (with_outbox empty)).router
        ≡ with_outbox empty)
on_accepted-verify_and_submit_example =
    on_accepted-verify_and_submit header easy 7 9 empty empty-IsValid (unfold count in refl)
      accepted

-- A coinbase of two bytes and one transaction of one byte.
abbrev template : GbtSubmitter
template = record { coinbase_hex = 48 ∷ 49 ∷ 48 ∷ 50 ∷ []; txs_hex = (102 ∷ 102 ∷ []) ∷ [] }

abbrev offered : BlockTemplate
offered = record {
  coinbasetxn = text (48 ∷ 49 ∷ []);
  transactions = record { tx_data = text (48 ∷ 50 ∷ []); fee = some 7 } ∷ [];
  default_witness_commitment = none;
  height = some 800000;
}

abbrev no_synth : CoinbasePolicy
no_synth = record { allow_synth_coinbase = false; payout_script_hex = []; coinbase_tag = [] }

template_block-reads_example :
    (take 160 (build_block_hex header (update_template no_synth offered)) ≡ bytes_to_hex header)
    × (read_compact_size (drop 160 (build_block_hex header (update_template no_synth offered)))
        ≡ some (1 + 1, (48 ∷ 49 ∷ []) ++ joined ((48 ∷ 50 ∷ []) ∷ [])))
template_block-reads_example =
    template_block-reads header no_synth offered 48 (49 ∷ []) ((48 ∷ 50 ∷ []) ∷ []) refl refl
      (refl, tt) (omega arith)
