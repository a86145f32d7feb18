-- ===== src/Adapters/StratumRunner/Calls.antt =====
-- A session of src/adapters/stratum_runner.cc: what its messages count and what they call.
use btc_multipool_cache_mine.Base.{
  ℕ, ◌+◌, ◌^◌, ◌<◌, ◌≡◌, u32, List, [], ◌∷◌, ◌∙◌, none, some, true, false, arith,
}
use btc_multipool_cache_mine.Base.Checked.{Checked, ok, out_of_bounds, ◌>>=◌}
use mathlib.Core.Path.{subst}
use btc_multipool_cache_mine.Adapters.StratumRunner.{StratumRunner}
use btc_multipool_cache_mine.Adapters.StratumRunner.Session.{
  Message, subscribe_result, authorize_result, configure_result, submit_result, submit_error,
  set_difficulty, notify, ignored, handle, run_messages, accepted_in,
}
use btc_multipool_cache_mine.Adapters.StratumRunner.Leaves.{
  IsUntimed, Leaves, Outcome, same, handle-Outcome,
}

accepted_in-cons :
    (m : Message) (ms : List Message) → accepted_in (m ∷ ms) ≡ accepted_in (m ∷ []) + accepted_in ms
unfolding accepted_in
accepted_in-cons (subscribe_result en1 size) ms = omega arith
accepted_in-cons authorize_result ms = omega arith
accepted_in-cons (configure_result rolling mask) ms = omega arith
accepted_in-cons (submit_result none) ms = omega arith
accepted_in-cons (submit_result (some true)) ms = omega arith
accepted_in-cons (submit_result (some false)) ms = omega arith
accepted_in-cons submit_error ms = omega arith
accepted_in-cons (set_difficulty diff) ms = omega arith
accepted_in-cons (notify job_id params) ms = omega arith
accepted_in-cons ignored ms = omega arith

module _ (hash : List ℕ → ℕ) (elapsed : ℕ → ℕ) where
  run_messages-Outcome :
      (ms : List Message) (r : StratumRunner)
      → IsUntimed r
      → Outcome (accepted_in ms) r (run_messages hash elapsed ms r)
  unfolding Outcome run_messages
  run_messages-Outcome [] r h = unfold accepted_in in same r h
  run_messages-Outcome (m ∷ ms) r h =
      go (handle hash elapsed m r) (λ next e. run_messages-Outcome ms next e)
        (handle-Outcome hash elapsed m r h)
    where
      onward :
          (next : StratumRunner) (c : Checked StratumRunner)
          → Leaves (accepted_in (m ∷ [])) r next
          → Outcome (accepted_in ms) next c
          → Outcome (accepted_in (m ∷ ms)) r c
      onward next (ok after) a b = record {
        untimed = b.untimed;
        called = b.called ∙ a.called;
        counted = omega (arith, a.counted, b.counted, accepted_in-cons m ms);
      }
      onward next out_of_bounds a b = tt

      go :
          (c : Checked StratumRunner)
          → ((next : StratumRunner)
              → IsUntimed next
              → Outcome (accepted_in ms) next (run_messages hash elapsed ms next))
          → Outcome (accepted_in (m ∷ [])) r c
          → Outcome (accepted_in (m ∷ ms)) r (c >>= (λ next. run_messages hash elapsed ms next))
      go (ok next) rest a = onward next (run_messages hash elapsed ms next) a (rest next a.untimed)
      go out_of_bounds rest a = tt

  -- From a runner that times no submission, with a 32-bit counter, whatever messages come: where
  -- they lead to no fault, the counter of accepted submissions has grown by the number of messages
  -- that say so, modulo 2 ^ 32, and still the callback for an accepted submission has not been
  -- called.
  pub run_messages-never_called :
      (ms : List Message) (r after : StratumRunner)
      → r.last_submit_sent ≡ none
      → r.accepted_submits < 2 ^ 32
      → run_messages hash elapsed ms r ≡ ok after
      → (after.called ≡ r.called)
        × (after.accepted_submits ≡ u32 (accepted_in ms + r.accepted_submits))
  unfolding Outcome
  run_messages-never_called ms r after h fits e =
      let left : Leaves (accepted_in ms) r after =
        subst (Outcome (accepted_in ms) r) e (run_messages-Outcome ms r (h, fits)) in
      (left.called, left.counted)
