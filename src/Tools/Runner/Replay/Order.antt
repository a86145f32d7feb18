-- ===== src/Tools/Runner/Replay/Order.antt =====
-- src/tools/stratum_registry_runner.cpp: what `replay_pending` resubmits, and what it leaves.
use btc_multipool_cache_mine.Base.{ℕ, zero, suc, ◌≡◌, refl, List, [], ◌∷◌, true, map, take, drop}
use btc_multipool_cache_mine.Store.Outbox.{
  PendingSubmit, Outbox, key_of, enqueue, front, try_dequeue,
}
use btc_multipool_cache_mine.Store.Outbox.Valid.{IsValid, AreSeen, keys}
use btc_multipool_cache_mine.Submit.Router.{enqueue_in, route_raw}
use btc_multipool_cache_mine.Tools.Runner.Replay.{replayed, replay_loop, replay_pending}

replay_loop-take :
    (left : ℕ) (q : List PendingSubmit) (seen : List ℕ)
    → AreSeen seen (keys q)
    → replay_loop true left (record { q = q; seen = seen })
      ≡ (map replayed (take left q), record { q = drop left q; seen = seen })
unfolding replay_loop try_dequeue front route_raw enqueue_in enqueue key_of
replay_loop-take zero q seen known = refl
replay_loop-take (suc left) [] seen known = refl
replay_loop-take (suc left) (s ∷ q) seen known = rw (known.0, replay_loop-take left q seen known.1)

-- On a valid outbox with a callback, `replay_pending` gives the callback the first 128 queued
-- submissions in order, takes them out of the queue, and leaves all keys in the set.
pub replay_pending-take :
    (o : Outbox)
    → IsValid o
    → replay_pending true o ≡ (map replayed (take 128 o.q), record o { q = drop 128 o.q })
unfolding replay_pending
replay_pending-take o v = replay_loop-take 128 o.q o.seen v.known
