-- ===== src/Adapters/StratumAdapter/Fifo.antt =====
-- `StratumAdapter` of src/adapters/stratum_adapter.cc: the jobs come out in the order they went in.
use btc_multipool_cache_mine.Base.{
  ℕ, zero, suc, ◌≡◌, refl, ap, ◌∙◌, List, [], ◌∷◌, ◌++◌, none, some, append_assoc, append-nil,
  length,
}
use btc_multipool_cache_mine.Base.Checked.{Checked, ok, ◌>>=◌}
use btc_multipool_cache_mine.Normalize.Normalizer.{RawJobInputs, NormalizerResult, normalize_job}
use btc_multipool_cache_mine.Adapters.StratumAdapter.{
  StratumAdapter, push, pop, poll_normalized_full, with_policy, ingest_job_with_policy,
}

-- Calls of `ingestJobWithPolicy`, one after the other.
unfoldable pub ingest_all : List RawJobInputs → StratumAdapter → Checked StratumAdapter
ingest_all [] a = ok a
ingest_all (i ∷ is) a = do next ← ingest_job_with_policy i a; ingest_all is next

-- Calls of `pollNormalizedFull`, until one finds nothing.
unfoldable pub drain : ℕ → StratumAdapter → List NormalizerResult
drain zero a = []
drain (suc fuel) a =
    let polled = poll_normalized_full a in
    let rest = drain fuel polled.1 in elim polled.0 [ none ↦ [] | some r ↦ r ∷ rest ]

-- The jobs that the normalizer makes of the inputs under the policy.
abbrev pub AreNormalized : StratumAdapter → List RawJobInputs → List NormalizerResult → Type 0
AreNormalized a [] rs = rs ≡ []
AreNormalized a (i ∷ is) rs =
    (r : NormalizerResult) × (rest : List NormalizerResult) × (rs ≡ r ∷ rest)
    × (normalize_job (with_policy a i) ≡ ok (some r))
    × AreNormalized a is rest

abbrev pub queued : StratumAdapter → List NormalizerResult → StratumAdapter
queued a rs = record a { q = a.q ++ rs }

ingest_all-queued :
    (is : List RawJobInputs) (rs : List NormalizerResult) (a b : StratumAdapter)
    → ((i : RawJobInputs) → with_policy b i ≡ with_policy a i)
    → AreNormalized a is rs
    → ingest_all is b ≡ ok (queued b rs)
unfolding ingest_all ingest_job_with_policy push with_policy
ingest_all-queued [] rs a b same n = rw (n, append-nil b.q)
ingest_all-queued (i ∷ is) rs a b same (r, rest, e, n, ns) =
    rw (e, same i, n)
      (ingest_all-queued is rest a (record b { q = b.q ++ r ∷ [] }) same ns
        ∙ ap (λ q. ok (record b { q = q })) (append_assoc b.q (r ∷ []) rest))

drain-queue :
    (q : List NormalizerResult) (a : StratumAdapter)
    → drain (suc (length q)) (record a { q = q }) ≡ q
unfolding drain poll_normalized_full pop
drain-queue [] a = refl
drain-queue (r ∷ rest) a = ap (λ rs. r ∷ rs) (drain-queue rest a)

-- For inputs that, under the adapter's policy, normalize without a fault, a run of
-- `ingestJobWithPolicy` puts their results behind what was queued, and polling until nothing is
-- left gives the old queue and then the results in the order of the inputs.
pub drain-ingest_all :
    (is : List RawJobInputs) (rs : List NormalizerResult) (a : StratumAdapter)
    → AreNormalized a is rs
    → (ingest_all is a ≡ ok (queued a rs))
      × (drain (suc (length (a.q ++ rs))) (queued a rs) ≡ a.q ++ rs)
drain-ingest_all is rs a n = (ingest_all-queued is rs a a (λ i. refl) n, drain-queue (a.q ++ rs) a)
