-- ===== src/Adapters/GbtAdapter.antt =====
-- src/adapters/gbt_adapter.cc: the queue of normalized block templates.
-- The submitter is an object of another part: `submit_share` gives the header it is called with.
use btc_multipool_cache_mine.Base.{ℕ, List, [], ◌∷◌, ◌++◌, Option, none, some, Bool, if◌then◌else◌}
use btc_multipool_cache_mine.Base.Checked.{Checked, ok, ◌>>=◌}
use btc_multipool_cache_mine.Registry.{WorkItem}
use btc_multipool_cache_mine.Normalize.Normalizer.{RawJobInputs, NormalizerResult, normalize_job}

pub record GbtAdapter : Type 0 where
  pub q : List NormalizerResult
  pub has_submitter : Bool

unfoldable pub push : Option NormalizerResult → GbtAdapter → GbtAdapter
push none a = a
push (some r) a = record a { q = a.q ++ r ∷ [] }

unfoldable pub pop : List NormalizerResult → GbtAdapter → Option NormalizerResult × GbtAdapter
pop [] a = (none, a)
pop (r ∷ rest) a = (some r, record a { q = rest })

unfoldable pub poll_normalized_full : GbtAdapter → Option NormalizerResult × GbtAdapter
poll_normalized_full a = pop a.q a

unfoldable pub poll_normalized : GbtAdapter → Option WorkItem × GbtAdapter
poll_normalized a =
    let (polled, next) = pop a.q a in (elim polled [ none ↦ none | some r ↦ some r.item ], next)

unfoldable pub ingest_template : RawJobInputs → GbtAdapter → Checked GbtAdapter
ingest_template inputs a = do out ← normalize_job inputs; ok (push out a)

unfoldable pub submit_share : List ℕ → GbtAdapter → List (List ℕ)
submit_share header80_be a = if a.has_submitter then header80_be ∷ [] else []
