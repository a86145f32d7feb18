-- ===== src/Adapters/StratumRunner.antt =====
-- src/adapters/stratum_runner.cc: what the runner does with each message of a Stratum pool.
-- The JSON reader is not in the repository: a message is what the handler takes out of it, `none`
-- where taking it out throws, which ends the handler. `std::hash` of a job's name and the
-- milliseconds since a submission are arguments; a call of the callback is a pair in `called`. The
-- counters of submissions are `std::atomic<int>`, kept as their 32 bits, which wrap around.
pub mod Notify
pub mod Session
pub mod Leaves
pub mod Calls
use btc_multipool_cache_mine.Base.{
  ℕ, ◌+◌, ◌*◌, ◌/◌, List, [], ◌∷◌, ◌++◌, Option, none, some, Bool, true, false, ◌&&◌, if◌then◌else◌,
  ◌==◌, min, ◌<<<◌, u8, u32,
}
use btc_multipool_cache_mine.Base.Checked.{Checked, ok, ◌>>=◌}
use btc_multipool_cache_mine.Adapters.StratumAdapter.{
  StratumAdapter, on_subscribed, set_version_mask, update_var_diff,
}

pub record StratumRunner : Type 0 where
  pub adapter : StratumAdapter
  pub last_job_id : List ℕ
  pub extranonce1 : List ℕ
  pub extranonce2_size : ℕ
  pub accepted_submits : ℕ
  pub rejected_submits : ℕ
  pub avg_submit_ms : ℕ
  pub last_submit_sent : Option ℕ
  pub has_on_accepted : Bool
  pub pending_work_id : ℕ
  pub pending_nonce : ℕ
  pub called : List (ℕ × ℕ)

unfoldable pub set_pending_submit : ℕ → ℕ → StratumRunner → StratumRunner
set_pending_submit work_id nonce r = record r { pending_work_id = work_id; pending_nonce = nonce }

-- The seconds to wait after a failed connection.
unfoldable pub backoff_seconds : ℕ → ℕ
backoff_seconds attempt = min 30 (1 <<< min attempt 4)

-- "Very rough placeholder": the difficulty is not read.
unfoldable pub compact_from_difficulty : ℕ → ℕ
compact_from_difficulty diff = 0x1f00ffff

unfoldable pub ewma : ℕ → ℕ → ℕ
ewma prev ms = if prev == 0 then ms else (prev * 7 + ms) / 8

-- The time of a submission is used up by its answer.
unfoldable pub timed : (ℕ → ℕ) → Bool → Option ℕ → StratumRunner → StratumRunner
timed elapsed accepted none r = r
timed elapsed accepted (some sent) r = record r {
  avg_submit_ms = ewma r.avg_submit_ms (elapsed sent);
  last_submit_sent = none;
  called =
      if accepted && r.has_on_accepted
      then r.called ++ (r.pending_work_id, r.pending_nonce) ∷ []
      else r.called;
}

unfoldable pub on_submit_result : (ℕ → ℕ) → Option Bool → StratumRunner → StratumRunner
on_submit_result elapsed none r = r
on_submit_result elapsed (some true) r =
    timed elapsed true r.last_submit_sent
      (record r { accepted_submits = u32 (r.accepted_submits + 1) })
on_submit_result elapsed (some false) r =
    timed elapsed false r.last_submit_sent
      (record r { rejected_submits = u32 (r.rejected_submits + 1) })

unfoldable pub on_submit_error : (ℕ → ℕ) → StratumRunner → StratumRunner
on_submit_error elapsed r =
    timed elapsed false r.last_submit_sent
      (record r { rejected_submits = u32 (r.rejected_submits + 1) })

-- The answer to the subscription: the first extra nonce, then the size of the second.
unfoldable pub on_subscribe_result : Option (List ℕ) → Option ℕ → StratumRunner → StratumRunner
on_subscribe_result none size r = r
on_subscribe_result (some en1) none r = record r { extranonce1 = en1 }
on_subscribe_result (some en1) (some size) r = record r {
  extranonce1 = en1;
  extranonce2_size = u8 size;
  adapter = on_subscribed en1 (u8 size) r.adapter;
}

-- The answer to `mining.configure`: whether versions may be rolled, and the mask, 0 where it is no
-- number.
unfoldable pub on_configure_result : Option Bool → Option ℕ → StratumRunner → StratumRunner
on_configure_result (some true) none r = record r { adapter = set_version_mask 0 r.adapter }
on_configure_result (some true) (some mask) r = record r {
  adapter = set_version_mask mask r.adapter;
}
on_configure_result _ mask r = r

unfoldable pub on_set_difficulty : Option ℕ → StratumRunner → StratumRunner
on_set_difficulty none r = r
on_set_difficulty (some diff) r = record r {
  adapter = update_var_diff (compact_from_difficulty diff) r.adapter;
}

-- A share is sent only where there is a client and a job; `send` is the client.
unfoldable pub submit_share :
    Option (List ℕ → List ℕ → List ℕ → List ℕ → Bool)
    → List ℕ
    → List ℕ
    → List ℕ
    → StratumRunner
    → Bool
submit_share none extranonce2_hex ntime_hex nonce_hex r = false
submit_share (some send) extranonce2_hex ntime_hex nonce_hex r = elim r.last_job_id [
  | [] ↦ false
  | c ∷ cs ↦ send (c ∷ cs) extranonce2_hex ntime_hex nonce_hex
]
