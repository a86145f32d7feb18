-- ===== src/Adapters/StratumRunner/Leaves.antt =====
-- What one message leaves of the state that src/adapters/stratum_runner.cc keeps of submissions.
use btc_multipool_cache_mine.Base.{
  ℕ, ◌+◌, ◌^◌, ◌<◌, ◌≡◌, u32, refl, List, [], ◌∷◌, Option, none, some, Bool, true, false, arith,
}
use btc_multipool_cache_mine.Base.Checked.{Checked, ok, out_of_bounds, ◌>>=◌}
use btc_multipool_cache_mine.Normalize.Normalizer.{RawJobInputs}
use btc_multipool_cache_mine.Adapters.StratumAdapter.{
  StratumAdapter, ingest_job_with_policy, set_clean_jobs,
}
use btc_multipool_cache_mine.Adapters.StratumRunner.{
  StratumRunner, timed, on_submit_result, on_submit_error, on_subscribe_result, on_configure_result,
  on_set_difficulty,
}
use btc_multipool_cache_mine.Adapters.StratumRunner.Notify.{NotifyParams, notify_inputs, on_notify}
use btc_multipool_cache_mine.Adapters.StratumRunner.Session.{
  Message, subscribe_result, authorize_result, configure_result, submit_result, submit_error,
  set_difficulty, notify, ignored, handle, accepted_in,
}

-- No submission is timed, and the counter has its 32 bits.
abbrev pub IsUntimed : StratumRunner → Type 0
IsUntimed r = (r.last_submit_sent ≡ none) × (r.accepted_submits < 2 ^ 32)

-- What a message leaves: no submission is timed, and nothing was called.
pub record Leaves (n : ℕ) (r after : StratumRunner) : Type 0 where
  pub untimed : IsUntimed after
  pub called : after.called ≡ r.called
  pub counted : after.accepted_submits ≡ u32 (n + r.accepted_submits)

unfoldable pub Outcome : ℕ → StratumRunner → Checked StratumRunner → Type 0
Outcome n r (ok after) = Leaves n r after
Outcome n r out_of_bounds = Unit

pub same : (r : StratumRunner) → IsUntimed r → Leaves 0 r r
same r h = record { untimed = h; called = refl; counted = omega arith }

on_subscribe_result-Leaves :
    (en1 : Option (List ℕ)) (size : Option ℕ) (r : StratumRunner)
    → IsUntimed r
    → Leaves 0 r (on_subscribe_result en1 size r)
unfolding on_subscribe_result
on_subscribe_result-Leaves none size r h = same r h
on_subscribe_result-Leaves (some en1) none r h = record {
  untimed = h;
  called = refl;
  counted = omega arith;
}
on_subscribe_result-Leaves (some en1) (some size) r h = record {
  untimed = h;
  called = refl;
  counted = omega arith;
}

on_configure_result-Leaves :
    (rolling : Option Bool) (mask : Option ℕ) (r : StratumRunner)
    → IsUntimed r
    → Leaves 0 r (on_configure_result rolling mask r)
unfolding on_configure_result
on_configure_result-Leaves none mask r h = same r h
on_configure_result-Leaves (some false) mask r h = same r h
on_configure_result-Leaves (some true) none r h = record {
  untimed = h;
  called = refl;
  counted = omega arith;
}
on_configure_result-Leaves (some true) (some mask) r h = record {
  untimed = h;
  called = refl;
  counted = omega arith;
}

on_set_difficulty-Leaves :
    (diff : Option ℕ) (r : StratumRunner) → IsUntimed r → Leaves 0 r (on_set_difficulty diff r)
unfolding on_set_difficulty
on_set_difficulty-Leaves none r h = same r h
on_set_difficulty-Leaves (some diff) r h = record {
  untimed = h;
  called = refl;
  counted = omega arith;
}

ingested :
    (job_id : List ℕ) (r : StratumRunner) (c : Checked StratumAdapter)
    → IsUntimed r
    → Outcome 0 r (c >>= (λ adapter. ok (record r { last_job_id = job_id; adapter = adapter })))
unfolding Outcome
ingested job_id r (ok adapter) h = record { untimed = h; called = refl; counted = omega arith }
ingested job_id r out_of_bounds h = tt

module _ (hash : List ℕ → ℕ) (elapsed : ℕ → ℕ) where
  timed-none :
      (accepted : Bool) (o : Option ℕ) (r : StratumRunner)
      → o ≡ none
      → timed elapsed accepted o r ≡ r
  timed-none accepted o r e = rw e (unfold timed in refl)

  on_submit_result-Leaves :
      (answer : Option Bool) (r : StratumRunner)
      → IsUntimed r
      → Leaves (accepted_in (submit_result answer ∷ [])) r (on_submit_result elapsed answer r)
  unfolding on_submit_result accepted_in
  on_submit_result-Leaves none r h = same r h
  on_submit_result-Leaves (some true) r h =
      rw
        (timed-none true r.last_submit_sent
          (record r { accepted_submits = u32 (r.accepted_submits + 1) }) h.0)
        (record { untimed = (h.0, omega arith); called = refl; counted = omega arith })
  on_submit_result-Leaves (some false) r h =
      rw
        (timed-none false r.last_submit_sent
          (record r { rejected_submits = u32 (r.rejected_submits + 1) }) h.0)
        (record { untimed = h; called = refl; counted = omega arith })

  on_submit_error-Leaves :
      (r : StratumRunner) → IsUntimed r → Leaves 0 r (on_submit_error elapsed r)
  unfolding on_submit_error
  on_submit_error-Leaves r h =
      rw
        (timed-none false r.last_submit_sent
          (record r { rejected_submits = u32 (r.rejected_submits + 1) }) h.0)
        (record { untimed = h; called = refl; counted = omega arith })

  on_notify-Outcome :
      (job_id : Option (List ℕ)) (params : Option NotifyParams) (r : StratumRunner)
      → IsUntimed r
      → Outcome 0 r (on_notify hash job_id params r)
  unfolding Outcome on_notify
  on_notify-Outcome none params r h = same r h
  on_notify-Outcome (some job_id) none r h = record {
    untimed = h;
    called = refl;
    counted = omega arith;
  }
  on_notify-Outcome (some job_id) (some p) r h = go (notify_inputs hash job_id r p)
    where
      go :
          (inputs : Checked RawJobInputs)
          → Outcome 0 r (
              inputs >>= (λ i.
                ingest_job_with_policy i (set_clean_jobs p.clean r.adapter)
                >>= (λ adapter. ok (record r { last_job_id = job_id; adapter = adapter }))))
      go (ok i) = ingested job_id r (ingest_job_with_policy i (set_clean_jobs p.clean r.adapter)) h
      go out_of_bounds = tt

  pub handle-Outcome :
      (m : Message) (r : StratumRunner)
      → IsUntimed r
      → Outcome (accepted_in (m ∷ [])) r (handle hash elapsed m r)
  unfolding Outcome handle accepted_in
  handle-Outcome (subscribe_result en1 size) r h = on_subscribe_result-Leaves en1 size r h
  handle-Outcome authorize_result r h = same r h
  handle-Outcome (configure_result rolling mask) r h = on_configure_result-Leaves rolling mask r h
  handle-Outcome (submit_result answer) r h = on_submit_result-Leaves answer r h
  handle-Outcome submit_error r h = on_submit_error-Leaves r h
  handle-Outcome (set_difficulty diff) r h = on_set_difficulty-Leaves diff r h
  handle-Outcome (notify job_id params) r h = on_notify-Outcome job_id params r h
  handle-Outcome ignored r h = same r h
