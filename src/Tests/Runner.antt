-- ===== src/Tests/Runner.antt =====
-- The loop of the program that runs the miner.
use btc_multipool_cache_mine.Base.{
  Option, ℕ, ◌<◌, ◌^◌, ◌≡◌, ◌↔◌, refl, List, [], ◌∷◌, some, true, arith, replicate, map, take, drop,
  AreWords, Bool,
}
use mathlib.Core.List.{reverse}
use btc_multipool_cache_mine.Registry.{
  WorkSlotSnapshot, default_slot, default_item, default_job_const, size, returns,
}
use btc_multipool_cache_mine.Registry.Laws.{run}
use btc_multipool_cache_mine.Normalize.Endian.{bswap32, le_u32_words_to_be32_bytes}
use btc_multipool_cache_mine.Normalize.Normalizer.{NormalizerResult}
use btc_multipool_cache_mine.Submit.Gbt.{GbtSubmitter}
use btc_multipool_cache_mine.Cuda.Engine.{header80, ntime_of, raised, lowered}
use btc_multipool_cache_mine.Store.Outbox.{empty}
use btc_multipool_cache_mine.Tools.Runner.Jobs.{device_job, host_header, target_loop}
use btc_multipool_cache_mine.Tools.Runner.Jobs.Agree.{
  clamped, share_target_be-reversed, header80-host_header_iff,
}
use btc_multipool_cache_mine.Tools.Runner.Hits.{Mined}
use btc_multipool_cache_mine.Tools.Runner.Replay.{replayed, replay_pending}
use btc_multipool_cache_mine.Tools.Runner.Replay.Order.{replay_pending-take}
use btc_multipool_cache_mine.Tools.Runner.Slots.{SourceAdapter, stratum, Sources, poll_source}
use btc_multipool_cache_mine.Tools.Runner.Slots.Drained.{write_of, queued, owners, poll_source-run}
use btc_multipool_cache_mine.Tools.Runner.Backpressure.{Health}
use btc_multipool_cache_mine.Tools.Runner.Backpressure.Bounds.{
  run_updates, AreGrowing, start, kept_for, update_source-walk,
}
use btc_multipool_cache_mine.Adapters.StratumAdapter.{initial}
use btc_multipool_cache_mine.Tests.Queues.{two, two-IsValid}

abbrev target : List ℕ
target = 1 ∷ 2 ∷ 3 ∷ 4 ∷ 5 ∷ 6 ∷ 7 ∷ 8 ∷ []

target-AreWords : AreWords target
target-AreWords = (
  omega arith,
  (
    omega arith,
    (omega arith, (omega arith, (omega arith, (omega arith, (omega arith, (omega arith, tt)))))),
  ),
)

share_target_be-reversed_example :
    target_loop 8 0 target ≡ reverse (le_u32_words_to_be32_bytes target)
share_target_be-reversed_example = share_target_be-reversed target refl target-AreWords

abbrev work : WorkSlotSnapshot
work = record {
  gen = 1;
  item = record default_item {
    work_id = 7;
    version = 2;
    ntime = 9;
    prevhash_le = target;
    merkle_root_le = target;
    share_target_le = replicate 8 0xffffffff;
    active = true;
  };
  job_const = default_job_const;
}

ntime_fits : clamped work 3 refl refl target-AreWords target-AreWords < 2 ^ 32
unfolding ntime_of raised lowered device_job
ntime_fits = omega arith

header80-host_header_iff_example : (header80 (device_job work) 3 ≡ host_header work.item 3) ↔ (
    (map bswap32 target ≡ target)
    × (map bswap32 target ≡ target)
    × (ntime_of (device_job work) ≡ 9))
header80-host_header_iff_example =
    header80-host_header_iff work 3 refl refl target-AreWords target-AreWords (omega arith)
      ntime_fits (omega arith) (omega arith) (omega arith)

abbrev mined : Mined
mined = record {
  router = record { has_cb = true; outbox = some empty };
  called = [];
  blocks_gbt_ok = 0;
  blocks_gbt_no_cb = 0;
  blocks_gbt_fail = 0;
  shares = 0;
}

abbrev node : List ℕ → Bool
node block = true

abbrev template : GbtSubmitter
template = record { coinbase_hex = 48 ∷ 49 ∷ []; txs_hex = [] }

replay_pending-take_example :
    replay_pending true two ≡ (map replayed (take 128 two.q), record two { q = drop 128 two.q })
replay_pending-take_example = replay_pending-take two two-IsValid

abbrev result : ℕ → NormalizerResult
result n = record { item = record default_item { work_id = n }; job_const = default_job_const }

abbrev adapter : SourceAdapter
adapter = stratum (record initial { q = result 1 ∷ result 2 ∷ [] })

abbrev sources : Sources
sources = record {
  adapter = adapter;
  reg = record { slots = replicate 3 default_slot };
  workid_to_source = [];
}

poll_source-run_example :
    poll_source 3 1 sources
    ≡ returns (record {
      adapter = stratum initial;
      reg = run (map (write_of 1) (queued adapter)) sources.reg;
      workid_to_source = owners 1 (queued adapter) [];
    })
unfolding size
poll_source-run_example = poll_source-run 3 1 sources (omega arith) (omega arith)

-- Failed connections, then nothing bad, then more rejects than accepts.
abbrev reports : List (Option Health)
reports =
    some (record {
      accepted = 4;
      rejected = 1;
      avg_submit_ms = 20;
      connect_failures = 4;
      quick_disconnects = 0;
    })
    ∷ some (record {
      accepted = 5;
      rejected = 1;
      avg_submit_ms = 20;
      connect_failures = 0;
      quick_disconnects = 0;
    })
    ∷ some (record {
      accepted = 5;
      rejected = 2;
      avg_submit_ms = 20;
      connect_failures = 0;
      quick_disconnects = 0;
    })
    ∷ []

reports-AreGrowing : AreGrowing 0 0 reports
reports-AreGrowing =
    (omega arith, omega arith, (omega arith, omega arith, (omega arith, omega arith, tt)))

update_source-walk_example : run_updates 100 reports start ≡ kept_for (5, 2) 2
update_source-walk_example = update_source-walk 100 reports reports-AreGrowing
