-- ===== src/Tools/Runner/Slots/Drained.antt =====
-- src/tools/stratum_registry_runner.cpp: after a source was polled, its slot has its latest work.
use btc_multipool_cache_mine.Base.{
  ℕ, zero, suc, ◌<◌, ◌≡◌, refl, sym, ap, ◌∙◌, List, [], ◌∷◌, none, some, arith, length, u32, map,
}
use btc_multipool_cache_mine.Base.Table.{assign}
use btc_multipool_cache_mine.Registry.{WorkItem, WorkSourceRegistry, returns, size}
use btc_multipool_cache_mine.Registry.Laws.{Write, run, after, written, get-set_slot}
use btc_multipool_cache_mine.Normalize.Normalizer.{NormalizerResult}
use btc_multipool_cache_mine.Adapters.StratumAdapter
use btc_multipool_cache_mine.Adapters.GbtAdapter
use btc_multipool_cache_mine.Tools.Runner.Slots.{
  SourceAdapter, stratum, gbt, detached, poll_full, Sources, from_source, poll_source,
}

-- The write of a result into the source's slot.
abbrev pub write_of : ℕ → NormalizerResult → Write
write_of sid full = record { slot = sid; item = from_source sid full.item; job = full.job_const }

abbrev pub owners : ℕ → List NormalizerResult → List (ℕ × ℕ) → List (ℕ × ℕ)
owners sid [] t = t
owners sid (full ∷ later) t = owners sid later (assign full.item.work_id (u32 sid) t)

-- What an adapter has queued, and the adapter without it.
abbrev pub queued : SourceAdapter → List NormalizerResult
queued (stratum a) = a.q
queued (gbt a) = a.q
queued detached = []

abbrev pub emptied : SourceAdapter → SourceAdapter
emptied (stratum a) = stratum (record a { q = [] })
emptied (gbt a) = gbt (record a { q = [] })
emptied detached = detached

-- `adapter` is an adapter as a function of its queue, whose poll takes the head.
module _ (adapter : List NormalizerResult → SourceAdapter)
    (none_left : poll_full (adapter []) ≡ (none, adapter []))
    (head : (full : NormalizerResult) (q : List NormalizerResult)
      → poll_full (adapter (full ∷ q)) ≡ (some full, adapter q)) where
  queue-run :
      (fuel sid : ℕ) (q : List NormalizerResult) (reg : WorkSourceRegistry) (t : List (ℕ × ℕ))
      → length q < fuel
      → sid < size reg
      → poll_source fuel sid (record { adapter = adapter q; reg = reg; workid_to_source = t })
        ≡ returns (record {
          adapter = adapter [];
          reg = run (map (write_of sid) q) reg;
          workid_to_source = owners sid q t;
        })
  unfolding poll_source run
  queue-run zero sid q reg t lt inside = absurd (omega arith)
  queue-run (suc fuel) sid [] reg t lt inside =
      rw (ap (λ x. x.0) none_left, ap (λ x. x.1) none_left, poll_source) refl
  queue-run (suc fuel) sid (full ∷ q) reg t lt inside =
      let item : WorkItem = from_source sid full.item in
      let set_it = get-set_slot sid item full.job_const reg inside in
      rw (ap (λ x. x.0) (head full q), ap (λ x. x.1) (head full q), set_it.0, poll_source)
        (queue-run fuel sid q (written sid item full.job_const reg)
            (assign full.item.work_id (u32 sid) t) (omega arith) (omega (arith, set_it.1))
          ∙ ap
              (λ r. returns (record {
                adapter = adapter [];
                reg = run (map (write_of sid) q) r;
                workid_to_source = owners sid (full ∷ q) t;
              }))
              (sym (ap (after reg) set_it.0)))

source_run :
    (adapter : SourceAdapter) (fuel sid : ℕ) (reg : WorkSourceRegistry) (t : List (ℕ × ℕ))
    → length (queued adapter) < fuel
    → sid < size reg
    → poll_source fuel sid (record { adapter = adapter; reg = reg; workid_to_source = t })
      ≡ returns (record {
        adapter = emptied adapter;
        reg = run (map (write_of sid) (queued adapter)) reg;
        workid_to_source = owners sid (queued adapter) t;
      })
unfolding poll_source run poll_full StratumAdapter.poll_normalized_full StratumAdapter.pop
    GbtAdapter.poll_normalized_full GbtAdapter.pop
source_run (stratum a) fuel sid reg t lt inside =
    queue-run (λ q. stratum (record a { q = q })) refl (λ full q. refl) fuel sid a.q reg t lt inside
source_run (gbt a) fuel sid reg t lt inside =
    queue-run (λ q. gbt (record a { q = q })) refl (λ full q. refl) fuel sid a.q reg t lt inside
source_run detached zero sid reg t lt inside = absurd (omega arith)
source_run detached (suc fuel) sid reg t lt inside = refl

-- With more fuel than the adapter has queued results and the source's slot in the registry, the
-- loop for a source, with a Stratum adapter, a GBT adapter or none, ends with the queue empty,
-- every result set in the slot in order under the source's number, and every work id assigned to
-- the source.
pub poll_source-run :
    (fuel sid : ℕ) (s : Sources)
    → length (queued s.adapter) < fuel
    → sid < size s.reg
    → poll_source fuel sid s
      ≡ returns (record {
        adapter = emptied s.adapter;
        reg = run (map (write_of sid) (queued s.adapter)) s.reg;
        workid_to_source = owners sid (queued s.adapter) s.workid_to_source;
      })
poll_source-run fuel sid s lt inside =
    source_run s.adapter fuel sid s.reg s.workid_to_source lt inside
