-- ===== src/Adapters/StratumRunner/Session.antt =====
-- The receive loop of src/adapters/stratum_runner.cc over a sequence of messages.
use btc_multipool_cache_mine.Base.{ℕ, ◌+◌, List, [], ◌∷◌, Option, some, Bool, true}
use btc_multipool_cache_mine.Base.Checked.{Checked, ok, ◌>>=◌}
use btc_multipool_cache_mine.Adapters.StratumRunner.{
  StratumRunner, on_submit_result, on_submit_error, on_subscribe_result, on_configure_result,
  on_set_difficulty,
}
use btc_multipool_cache_mine.Adapters.StratumRunner.Notify.{NotifyParams, on_notify}

-- One line from the pool, by the branch that takes it. A line that no branch takes is `ignored`;
-- a `method` that is no string, whose exception nothing catches, is not a message.
pub data Message : Type 0 where
  subscribe_result : Option (List ℕ) → Option ℕ → Message
  authorize_result : Message
  configure_result : Option Bool → Option ℕ → Message
  submit_result : Option Bool → Message
  submit_error : Message
  set_difficulty : Option ℕ → Message
  notify : Option (List ℕ) → Option NotifyParams → Message
  ignored : Message

module _ (hash : List ℕ → ℕ) (elapsed : ℕ → ℕ) where
  unfoldable pub handle : Message → StratumRunner → Checked StratumRunner
  handle (subscribe_result en1 size) r = ok (on_subscribe_result en1 size r)
  handle authorize_result r = ok r
  handle (configure_result rolling mask) r = ok (on_configure_result rolling mask r)
  handle (submit_result accepted) r = ok (on_submit_result elapsed accepted r)
  handle submit_error r = ok (on_submit_error elapsed r)
  handle (set_difficulty diff) r = ok (on_set_difficulty diff r)
  handle (notify job_id params) r = on_notify hash job_id params r
  handle ignored r = ok r

  unfoldable pub run_messages : List Message → StratumRunner → Checked StratumRunner
  run_messages [] r = ok r
  run_messages (m ∷ ms) r = do next ← handle m r; run_messages ms next

-- The submissions that the pool says it accepted.
unfoldable pub accepted_in : List Message → ℕ
accepted_in [] = 0
accepted_in (submit_result (some true) ∷ ms) = 1 + accepted_in ms
accepted_in (_ ∷ ms) = accepted_in ms
