-- ===== src/Tests/Templates.antt =====
-- Rounds of the runner that polls a node for block templates.
use btc_multipool_cache_mine.Base.{
  ℕ, ◌≡◌, refl, List, [], ◌∷◌, Option, none, some, true, false, replicate, length, inr,
}
use btc_multipool_cache_mine.Base.Text.{same_text}
use btc_multipool_cache_mine.Base.Checked.{ok}
use btc_multipool_cache_mine.Adapters.GbtRunner.{Template, GbtRunner, rounds}
use btc_multipool_cache_mine.Adapters.GbtRunner.Rounds.{
  IsBased, Whenever, rounds-missed, rounds-IsBased,
}

abbrev block : List ℕ
block = replicate 64 97

abbrev template : Option ℕ → Template
template curtime = record {
  previousblockhash = some block;
  version = some 0x20000000;
  bits = some 0x1d00ffff;
  curtime = curtime;
  merkleroot = none;
}

abbrev idle : GbtRunner
idle = record {
  last_prevhash = [];
  adapter = record { q = []; has_submitter = true };
  has_submitter = true;
  updated = [];
}

block_is_new : same_text block [] ≡ false
unfolding same_text
block_is_new = refl

rounds-missed_example :
    rounds length (some (template none) ∷ some (template (some 5)) ∷ none ∷ []) idle
    ≡ ok (record idle { last_prevhash = block })
rounds-missed_example =
    rounds-missed length block (template none) (some (template (some 5)) ∷ none ∷ []) idle refl
      block_is_new (inr (inr refl)) (refl, tt)

rounds-IsBased_example :
    Whenever IsBased (rounds length (none ∷ some (template (some 5)) ∷ []) idle)
rounds-IsBased_example = rounds-IsBased length (none ∷ some (template (some 5)) ∷ []) idle tt
