-- ===== src/Adapters/StratumAdapter.antt =====
-- src/adapters/stratum_adapter.cc: the queue of normalized jobs of a Stratum pool, with its policy
-- and the state of the connection. Every method runs under the mutex, as one step; a fault of the
-- normalizer is a fault of the method. `submitShare` does nothing in the source.
pub mod Fifo
use btc_multipool_cache_mine.Base.{
  ℕ, List, [], ◌∷◌, ◌++◌, Option, none, some, Bool, true, false, if◌then◌else◌, ◌==◌, replicate,
  map,
}
use btc_multipool_cache_mine.Base.Checked.{Checked, ok, ◌>>=◌}
use btc_multipool_cache_mine.Registry.{WorkItem, default_item, default_job_const}
use btc_multipool_cache_mine.Normalize.Targets.{compact_to_target_u32_le}
use btc_multipool_cache_mine.Normalize.Normalizer.{
  RawJobInputs, NormalizerResult, or_else, normalize_job,
}

pub data State : Type 0 where
  disconnected connecting subscribed authorized : State

pub record StratumAdapter : Type 0 where
  pub q : List NormalizerResult
  pub state : State
  pub extranonce2_size : ℕ
  pub extranonce1_hex : List ℕ
  pub policy_share_nbits : ℕ
  pub policy_vmask : ℕ
  pub policy_ntime_min : ℕ
  pub policy_ntime_max : ℕ
  pub policy_clean_jobs : Bool
  pub force_clean_jobs : Bool

abbrev pub initial : StratumAdapter
initial = record {
  q = [];
  state = disconnected;
  extranonce2_size = 0;
  extranonce1_hex = [];
  policy_share_nbits = 0;
  policy_vmask = 0;
  policy_ntime_min = 0;
  policy_ntime_max = 0;
  policy_clean_jobs = true;
  force_clean_jobs = false;
}

unfoldable pub push : Option NormalizerResult → StratumAdapter → StratumAdapter
push none a = a
push (some r) a = record a { q = a.q ++ r ∷ [] }

unfoldable pub pop :
    List NormalizerResult → StratumAdapter → Option NormalizerResult × StratumAdapter
pop [] a = (none, a)
pop (r ∷ rest) a = (some r, record a { q = rest })

unfoldable pub poll_normalized_full : StratumAdapter → Option NormalizerResult × StratumAdapter
poll_normalized_full a = pop a.q a

unfoldable pub poll_normalized : StratumAdapter → Option WorkItem × StratumAdapter
poll_normalized a =
    let (polled, next) = pop a.q a in (elim polled [ none ↦ none | some r ↦ some r.item ], next)

unfoldable pub enqueue_dummy : ℕ → ℕ → StratumAdapter → Checked StratumAdapter
enqueue_dummy work_id nbits a = do
  target ← compact_to_target_u32_le nbits
  ok (
      push
        (some (record {
          item = record default_item {
            work_id = work_id;
            version = 0x20000000;
            nbits = nbits;
            block_target_le = target;
            share_target_le = target;
          };
          job_const = default_job_const;
        }))
        a)

unfoldable pub ingest_job : RawJobInputs → StratumAdapter → Checked StratumAdapter
ingest_job inputs a = do out ← normalize_job inputs; ok (push out a)

-- The inputs after the policy: each policy that is set replaces the job's own value.
unfoldable pub with_policy : StratumAdapter → RawJobInputs → RawJobInputs
with_policy a inputs = record inputs {
  share_nbits = or_else a.policy_share_nbits inputs.share_nbits;
  vmask = or_else a.policy_vmask inputs.vmask;
  ntime_min = or_else a.policy_ntime_min inputs.ntime_min;
  ntime_max = or_else a.policy_ntime_max inputs.ntime_max;
  clean_jobs = if a.force_clean_jobs then a.policy_clean_jobs else inputs.clean_jobs;
}

unfoldable pub ingest_job_with_policy : RawJobInputs → StratumAdapter → Checked StratumAdapter
ingest_job_with_policy inputs a = do out ← normalize_job (with_policy a inputs); ok (push out a)

unfoldable pub connect : StratumAdapter → StratumAdapter
connect a = record a { state = connecting }

unfoldable pub on_subscribed : List ℕ → ℕ → StratumAdapter → StratumAdapter
on_subscribed extranonce1_hex extranonce2_size a = record a {
  extranonce1_hex = extranonce1_hex;
  extranonce2_size = extranonce2_size;
  state = subscribed;
}

unfoldable pub on_authorize_ok : StratumAdapter → StratumAdapter
on_authorize_ok a = record a { state = authorized }

unfoldable pub update_var_diff : ℕ → StratumAdapter → StratumAdapter
update_var_diff share_nbits a = record a { policy_share_nbits = share_nbits }

unfoldable pub set_version_mask : ℕ → StratumAdapter → StratumAdapter
set_version_mask vmask a = record a { policy_vmask = vmask }

unfoldable pub set_ntime_caps : ℕ → ℕ → StratumAdapter → StratumAdapter
set_ntime_caps nmin nmax a = record a { policy_ntime_min = nmin; policy_ntime_max = nmax }

unfoldable pub set_clean_jobs : Bool → StratumAdapter → StratumAdapter
set_clean_jobs flag a = record a { policy_clean_jobs = flag }

unfoldable pub set_force_clean_jobs : Bool → StratumAdapter → StratumAdapter
set_force_clean_jobs force a = record a { force_clean_jobs = force }
