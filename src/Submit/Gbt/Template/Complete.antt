-- ===== src/Submit/Gbt/Template/Complete.antt =====
-- src/submit/gbt_submitter.cc: from a complete template to the text of the block.
use btc_multipool_cache_mine.Base.{
  ℕ, ◌+◌, ◌^◌, ◌<◌, ◌≡◌, refl, sym, ap, ◌∙◌, List, [], ◌∷◌, ◌++◌, Option, none, some, true, length,
  take, drop, Bool-cases, inl, inr, arith,
}
use mathlib.Core.Path.{subst}
use btc_multipool_cache_mine.Submit.Gbt.{GbtSubmitter, is_empty, build_block_hex}
use btc_multipool_cache_mine.Submit.Gbt.Hex.{bytes_to_hex}
use btc_multipool_cache_mine.Submit.Gbt.VarInt.{read_compact_size}
use btc_multipool_cache_mine.Submit.Gbt.Block.{joined, build_block_hex-reads}
use btc_multipool_cache_mine.Submit.Gbt.Template.{
  text, TemplateTx, BlockTemplate, CoinbasePolicy, read_transactions, committed, update_rest,
  with_coinbase, update_template,
}

-- Every transaction has its text.
abbrev pub AreTexts : List TemplateTx → List (List ℕ) → Type 0
AreTexts [] [] = Unit {0}
AreTexts [] (t ∷ ts) = ⊥
AreTexts (tx ∷ txs) [] = ⊥
AreTexts (tx ∷ txs) (t ∷ ts) = (tx.tx_data ≡ text t) × AreTexts txs ts

read_transactions-AreTexts :
    (txs : List TemplateTx) (texts : List (List ℕ))
    → AreTexts txs texts
    → read_transactions txs ≡ (true, texts)
unfolding read_transactions
read_transactions-AreTexts [] [] h = refl
read_transactions-AreTexts [] (t ∷ ts) h = elim h [ ]
read_transactions-AreTexts (tx ∷ txs) [] h = elim h [ ]
read_transactions-AreTexts (tx ∷ txs) (t ∷ ts) h = rw (h.0, read_transactions-AreTexts txs ts h.1)

committed-kept :
    (p : CoinbasePolicy) (t : BlockTemplate) (c : ℕ) (cs : List ℕ) (w : Option (List ℕ))
    → committed p t (c ∷ cs) w ≡ c ∷ cs
unfolding is_empty
committed-kept p t c cs none = refl
committed-kept p t c cs (some commitment) = elim (Bool-cases p.allow_synth_coinbase) [
  | inl e ↦ rw e
  | inr e ↦ rw e
]

update_template_complete :
    (p : CoinbasePolicy) (t : BlockTemplate) (c : ℕ) (cs : List ℕ) (texts : List (List ℕ))
    → t.coinbasetxn ≡ text (c ∷ cs)
    → AreTexts t.transactions texts
    → update_template p t ≡ record { coinbase_hex = c ∷ cs; txs_hex = texts }
unfolding update_template update_rest
update_template_complete p t c cs texts e h =
    ap (with_coinbase p t) e
    ∙ rw (read_transactions-AreTexts t.transactions texts h) (
        ap (λ coinbase. record { coinbase_hex = coinbase; txs_hex = texts })
          (committed-kept p t c cs t.default_witness_commitment))

full_block-reads :
    (header : List ℕ) (c : ℕ) (cs : List ℕ) (texts : List (List ℕ))
    → (let g : GbtSubmitter = record { coinbase_hex = c ∷ cs; txs_hex = texts } in
        length header ≡ 80
        → length texts + 1 < 2 ^ 64
        → (take 160 (build_block_hex header g) ≡ bytes_to_hex header)
          × (read_compact_size (drop 160 (build_block_hex header g))
              ≡ some (length texts + 1, (c ∷ cs) ++ joined texts)))
unfolding is_empty
full_block-reads header c cs texts h few =
    let reads =
      build_block_hex-reads header (record { coinbase_hex = c ∷ cs; txs_hex = texts }) h few in
    (reads.0, reads.1 ∙ ap (λ n. some (n, (c ∷ cs) ++ joined texts)) (omega arith))

-- After `updateTemplate` for a template whose `coinbasetxn` is a text that is not empty and whose
-- transactions all have their text, fewer than 2 ^ 64 - 1 of them, the block built for a header of
-- 80 bytes begins with the header in 160 digits, its bytes as they were given and not flipped, and
-- a reader of CompactSize then finds the number of transactions, the coinbase counted, followed by
-- the coinbase and the others in order.
pub template_block-reads :
    (header : List ℕ) (p : CoinbasePolicy) (t : BlockTemplate) (c : ℕ) (cs : List ℕ)
    (texts : List (List ℕ))
    → length header ≡ 80
    → t.coinbasetxn ≡ text (c ∷ cs)
    → AreTexts t.transactions texts
    → length texts + 1 < 2 ^ 64
    → (take 160 (build_block_hex header (update_template p t)) ≡ bytes_to_hex header)
      × (read_compact_size (drop 160 (build_block_hex header (update_template p t)))
          ≡ some (length texts + 1, (c ∷ cs) ++ joined texts))
template_block-reads header p t c cs texts h e all few =
    subst
      (λ g.
        (take 160 (build_block_hex header g) ≡ bytes_to_hex header)
        × (read_compact_size (drop 160 (build_block_hex header g))
            ≡ some (length texts + 1, (c ∷ cs) ++ joined texts)))
      (sym (update_template_complete p t c cs texts e all))
      (full_block-reads header c cs texts h few)
