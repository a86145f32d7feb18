-- ===== src/Adapters/GbtRunner.antt =====
-- src/adapters/gbt_runner.cc: one round of the loop that asks the node for a block template. The
-- answer of the node and the hash of a text are arguments; sleeping and the thread are not modelled.
pub mod Rounds
use btc_multipool_cache_mine.Base.{
  ℕ, List, [], ◌∷◌, ◌++◌, Option, none, some, Bool, true, false, ◌&&◌, ◌==◌, if◌then◌else◌,
  replicate,
}
use btc_multipool_cache_mine.Base.Text.{same_text}
use btc_multipool_cache_mine.Base.Checked.{Checked, ok, out_of_bounds, ◌>>=◌}
use btc_multipool_cache_mine.Normalize.Normalizer.{RawJob, RawJobInputs}
use btc_multipool_cache_mine.Adapters.GbtAdapter.{GbtAdapter, ingest_template}
use btc_multipool_cache_mine.Adapters.StratumRunner.Notify.{hex_to_32}

-- A template as the reader of JSON gives it: `none` where reading the member throws, and for
-- `merkleroot` where it is no text. `bits` is what `stoul` makes of the text, in 32 bits; a text in
-- hexadecimal digits is read as `sscanf` reads it, and another one is a fault.
pub record Template : Type 0 where
  pub previousblockhash : Option (List ℕ)
  pub version : Option ℕ
  pub bits : Option ℕ
  pub curtime : Option ℕ
  pub merkleroot : Option (List ℕ)

-- `last_prevhash`, the adapter, and what the submitter's `updateTemplate` was given.
pub record GbtRunner : Type 0 where
  pub last_prevhash : List ℕ
  pub adapter : GbtAdapter
  pub has_submitter : Bool
  pub updated : List Template

-- "gbt".
abbrev pub source_name : List ℕ
source_name = 103 ∷ 98 ∷ 116 ∷ []

-- `header_first64` keeps the zeros of its initialiser.
abbrev pub gbt_inputs : (List ℕ → ℕ) → List ℕ → ℕ → ℕ → ℕ → List ℕ → List ℕ → RawJobInputs
gbt_inputs hash prevhash version bits curtime prevhash_be merkle_root_be = record {
  source_id = 0;
  job = record {
    source_name = source_name;
    work_id = hash prevhash;
    version = version;
    nbits = bits;
    ntime = curtime;
  };
  prevhash_be = prevhash_be;
  merkle_root_be = merkle_root_be;
  header_first64 = replicate 64 0;
  share_nbits = bits;
  vmask = 0;
  ntime_min = 0;
  ntime_max = 0;
  extranonce2_size = 0;
  clean_jobs = true;
}

unfoldable pub merkle_text : Option (List ℕ) → List ℕ
merkle_text none = replicate 64 48
merkle_text (some text) = text

unfoldable pub told : Template → GbtRunner → GbtRunner
told t r = if r.has_submitter then record r { updated = r.updated ++ t ∷ [] } else r

-- Reading the members in their order; the first one that throws ends the round.
unfoldable pub ingest_round :
    (List ℕ → ℕ)
    → List ℕ
    → Template
    → Option ℕ
    → Option ℕ
    → Option ℕ
    → GbtRunner
    → Checked GbtRunner
ingest_round hash prevhash t none bits curtime r = ok r
ingest_round hash prevhash t (some version) none curtime r = ok r
ingest_round hash prevhash t (some version) (some bits) none r = ok r
ingest_round hash prevhash t (some version) (some bits) (some curtime) r = do
  prevhash_be ← hex_to_32 prevhash
  merkle_root_be ← hex_to_32 (merkle_text t.merkleroot)
  adapter ←
      ingest_template (gbt_inputs hash prevhash version bits curtime prevhash_be merkle_root_be)
        r.adapter
  ok (told t (record r { adapter = adapter }))

unfoldable pub new_block : (List ℕ → ℕ) → List ℕ → Template → GbtRunner → Checked GbtRunner
new_block hash prevhash t r =
    ingest_round hash prevhash t t.version t.bits t.curtime (record r { last_prevhash = prevhash })

abbrev pub with_prevhash : (List ℕ → ℕ) → Template → GbtRunner → Option (List ℕ) → Checked GbtRunner
with_prevhash hash t r none = ok r
with_prevhash hash t r (some prevhash) =
    if same_text prevhash r.last_prevhash then ok r else new_block hash prevhash t r

-- One round, for the template that `fetchTemplate` brings.
unfoldable pub round : (List ℕ → ℕ) → Option Template → GbtRunner → Checked GbtRunner
round hash none r = ok r
round hash (some t) r = with_prevhash hash t r t.previousblockhash

unfoldable pub rounds : (List ℕ → ℕ) → List (Option Template) → GbtRunner → Checked GbtRunner
rounds hash [] r = ok r
rounds hash (t ∷ ts) r = round hash t r >>= (λ next. rounds hash ts next)
