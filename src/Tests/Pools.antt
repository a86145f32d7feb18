-- ===== src/Tests/Pools.antt =====
-- The adapters and the router between pools.
use btc_multipool_cache_mine.Base.{
  ℕ, u32, ◌+◌, ◌-◌, ◌*◌, ◌^◌, ◌%◌, ◌<◌, ◌≡◌, refl, zero, get_or, List, [], ◌∷◌, ◌++◌, Option, some,
  none, arith, length, suc, true,
}
use btc_multipool_cache_mine.Base.Checked.{ok}
use btc_multipool_cache_mine.Registry.{WorkItem, default_item}
use btc_multipool_cache_mine.Normalize.Targets.Expand.{exponent, mantissa}
use btc_multipool_cache_mine.Normalize.Targets.Amount.{compact_to_target-amount}
use btc_multipool_cache_mine.Normalize.Normalizer.{RawJobInputs, NormalizerResult, or_else}
use btc_multipool_cache_mine.Normalize.Normalizer.Job.{Describes, normalize_job-Describes}
use btc_multipool_cache_mine.Adapters.StratumAdapter.{initial, with_policy}
use btc_multipool_cache_mine.Adapters.StratumAdapter.Fifo.{
  ingest_all, drain, queued, AreNormalized, drain-ingest_all,
}
use btc_multipool_cache_mine.Adapters.StratumRunner.{
  StratumRunner, timed, on_submit_result, on_submit_error, on_subscribe_result,
}
use btc_multipool_cache_mine.Adapters.StratumRunner.Session.{
  Message, subscribe_result, submit_result, submit_error, handle, run_messages, accepted_in,
}
use btc_multipool_cache_mine.Adapters.StratumRunner.Calls.{run_messages-never_called}
use btc_multipool_cache_mine.Adapters.StratumAdapter.{on_subscribed}
use btc_multipool_cache_mine.Tests.Targets.{inputs}
use btc_multipool_cache_mine.Adapters.PoolRouter.{
  PoolRouter, AdapterBase, failover, poll_next, poll_adapter,
}
use btc_multipool_cache_mine.Adapters.PoolRouter.Turns.{in_turn, poll_next-turns, poll_next-idle}

abbrev item : ℕ → WorkItem
item n = record default_item { work_id = n }

-- An adapter that gives the items of a list.
abbrev pop : List WorkItem → Option WorkItem × List WorkItem
pop [] = (none, [])
pop (w ∷ ws) = (some w, ws)

abbrev listed : AdapterBase (List WorkItem)
listed = record { poll_normalized = pop }

abbrev pools : List (Option (List WorkItem))
pools = some (item 1 ∷ []) ∷ none ∷ some [] ∷ []

before_third : (j : ℕ) → j < 2 → (poll_adapter listed (get_or pools ((1 + j) % 3) none)).0 ≡ none
unfolding poll_adapter
before_third zero h = refl
before_third (suc zero) h = refl
before_third (suc (suc j)) h = absurd (omega arith)

abbrev idle_pools : List (Option (List WorkItem))
idle_pools = none ∷ some [] ∷ []

all_idle : (j : ℕ) → j < 2 → (poll_adapter listed (get_or idle_pools j none)).0 ≡ none
unfolding poll_adapter
all_idle zero h = refl
all_idle (suc zero) h = refl
all_idle (suc (suc j)) h = absurd (omega arith)

poll_next-turns_example :
    ((poll_next listed (in_turn listed pools 1)).0 ≡ some (item 1))
    × ((poll_next listed (in_turn listed pools 1)).1.rr_index ≡ ((1 + 2) % 3 + 1) % 3)
poll_next-turns_example =
    poll_next-turns listed 2 1 (item 1) pools (omega arith) (omega arith) before_third
      (unfold poll_adapter in refl)

poll_next-idle_example :
    ((poll_next listed (in_turn listed idle_pools 1)).0 ≡ none)
    × ((poll_next listed (in_turn listed idle_pools 1)).1.rr_index ≡ (1 + 1) % 2)
poll_next-idle_example = poll_next-idle listed 1 idle_pools (omega arith) all_idle

abbrev first_pools : PoolRouter (List WorkItem)
first_pools = record {
  strategy = failover;
  adapters = (none ∷ some [] ∷ []) ++ some (item 4 ∷ []) ∷ some (item 5 ∷ []) ∷ [];
  rr_index = 0;
}

described :
    (id : ℕ)
    → Describes
        (inputs id)
        (mantissa 0x1f00ffff * 256 ^ (exponent 0x1f00ffff - 3))
        (mantissa 0x1d00ffff * 256 ^ (exponent 0x1d00ffff - 3))
described id =
    normalize_job-Describes (inputs id) (mantissa 0x1f00ffff * 256 ^ (exponent 0x1f00ffff - 3))
      (mantissa 0x1d00ffff * 256 ^ (exponent 0x1d00ffff - 3)) refl (omega arith) refl (omega arith)
      refl (compact_to_target-amount 0x1f00ffff refl (omega arith) (omega arith) (omega arith))
      (compact_to_target-amount 0x1d00ffff refl (omega arith) (omega arith) (omega arith))

abbrev jobs : List RawJobInputs
jobs = inputs 5 ∷ inputs 6 ∷ []

abbrev results : List NormalizerResult
results = (described 5).result ∷ (described 6).result ∷ []

are_normalized : AreNormalized initial jobs results
unfolding with_policy or_else
are_normalized = (
  (described 5).result,
  (described 6).result ∷ [],
  refl,
  (described 5).returns,
  ((described 6).result, [], refl, (described 6).returns, refl),
)

drain-ingest_all_example :
    (ingest_all jobs initial ≡ ok (queued initial results))
    × (drain (suc (length ([] ++ results))) (queued initial results) ≡ [] ++ results)
drain-ingest_all_example = drain-ingest_all jobs results initial are_normalized

-- A runner with a callback and a submission to report.
abbrev runner : StratumRunner
runner = record {
  adapter = initial;
  last_job_id = 97 ∷ [];
  extranonce1 = [];
  extranonce2_size = 0;
  accepted_submits = 0;
  rejected_submits = 0;
  avg_submit_ms = 0;
  last_submit_sent = none;
  has_on_accepted = true;
  pending_work_id = 5;
  pending_nonce = 7;
  called = [];
}

abbrev messages : List Message
messages =
    subscribe_result (some (48 ∷ 49 ∷ [])) (some 4)
    ∷ submit_result (some true)
    ∷ submit_error
    ∷ submit_result (some true)
    ∷ []

abbrev answered : StratumRunner
answered = record runner {
  adapter = on_subscribed (48 ∷ 49 ∷ []) 4 initial;
  extranonce1 = 48 ∷ 49 ∷ [];
  extranonce2_size = 4;
  accepted_submits = 2;
  rejected_submits = 1;
}

run_messages-answered : run_messages (λ id. 0) (λ sent. 9) messages runner ≡ ok answered
unfolding run_messages handle on_subscribe_result on_submit_result on_submit_error timed
run_messages-answered = refl

run_messages-never_called_example :
    (answered.called ≡ runner.called)
    × (answered.accepted_submits ≡ u32 (accepted_in messages + runner.accepted_submits))
run_messages-never_called_example =
    run_messages-never_called (λ id. 0) (λ sent. 9) messages runner answered refl (omega arith)
      run_messages-answered
