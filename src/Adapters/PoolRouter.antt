-- ===== src/Adapters/PoolRouter.antt =====
-- src/adapters/pool_router.cc: one poll of all the pools, by failover or in turn.
-- `AdapterBase` (src/adapters/adapter_base.h) is an interface: a type of adapters and what a poll
-- of one does. A null pointer is `none`.
pub mod Turns
use btc_multipool_cache_mine.Base.{
  ℕ, zero, suc, ◌+◌, ◌%◌, List, [], ◌∷◌, ◌++◌, Option, none, some, length, get_or, set,
  if◌then◌else◌, ◌==◌,
}
use btc_multipool_cache_mine.Registry.{WorkItem}

pub data Strategy : Type 0 where
  failover round_robin : Strategy

pub record AdapterBase {ℓ} (S : Type ℓ) : Type ℓ where
  pub poll_normalized : S → Option WorkItem × S

pub record PoolRouter {ℓ} (S : Type ℓ) : Type ℓ where
  pub strategy : Strategy
  pub adapters : List (Option S)
  pub rr_index : ℕ

module _ {ℓ} {S : Type ℓ} where
  unfoldable pub add_adapter : Option S → PoolRouter S → PoolRouter S
  add_adapter a r = record r { adapters = r.adapters ++ a ∷ [] }

  unfoldable pub set_strategy : Strategy → PoolRouter S → PoolRouter S
  set_strategy s r = record r { strategy = s }

  unfoldable pub size : PoolRouter S → ℕ
  size r = length r.adapters

module _ {ℓ} {S : Type ℓ} (base : AdapterBase S) where
  unfoldable pub poll_adapter : Option S → Option WorkItem × Option S
  poll_adapter none = (none, none)
  poll_adapter (some a) = let (w, a') = base.poll_normalized a in (w, some a')

  -- The loop of the failover strategy: the work and the adapters after the polls.
  unfoldable pub poll_first : List (Option S) → Option WorkItem × List (Option S)
  poll_first [] = (none, [])
  poll_first (a ∷ rest) =
      let polled = poll_adapter a in
      let others = poll_first rest in
      elim polled.0 [ none ↦ (others.0, polled.1 ∷ others.1) | some w ↦ (some w, polled.1 ∷ rest) ]

  -- The other loop, with the polls that are left: the work with the index for the next call.
  unfoldable pub poll_from : ℕ → ℕ → List (Option S) → Option (WorkItem × ℕ) × List (Option S)
  poll_from zero idx adapters = (none, adapters)
  poll_from (suc left) idx adapters =
      let n = length adapters in
      let polled = poll_adapter (get_or adapters (idx % n) none) in
      let polled_once = set adapters (idx % n) polled.1 in
      let rest = poll_from left (idx + 1) polled_once in
      elim polled.0 [ none ↦ rest | some w ↦ (some (w, (idx % n + 1) % n), polled_once) ]

  unfoldable pub poll_round_robin : PoolRouter S → Option WorkItem × PoolRouter S
  poll_round_robin r =
      let polled = poll_from (length r.adapters) r.rr_index r.adapters in
      elim polled.0 [
        | none ↦ (
          none,
          record r { adapters = polled.1; rr_index = (r.rr_index + 1) % length r.adapters },
        )
        | some (w, next) ↦ (some w, record r { adapters = polled.1; rr_index = next })
      ]

  unfoldable pub poll_failover : PoolRouter S → Option WorkItem × PoolRouter S
  poll_failover r =
      let polled = poll_first r.adapters in (polled.0, record r { adapters = polled.1 })

  unfoldable pub poll_next : PoolRouter S → Option WorkItem × PoolRouter S
  poll_next r =
      if length r.adapters == 0
      then (none, r)
      else elim r.strategy [ failover ↦ poll_failover r | round_robin ↦ poll_round_robin r ]
