-- ===== src/Adapters/PoolRouter/Turns.antt =====
-- `PoolRouter::pollNext` of src/adapters/pool_router.cc: whose work it returns, and who is next.
use btc_multipool_cache_mine.Base.{
  ℕ, zero, suc, ◌+◌, ◌-◌, ◌%◌, ◌≤◌, ◌<◌, ◌≡◌, ◌≢◌, refl, ap, sym, ◌∙◌, List, [], ◌∷◌, ◌++◌, Option,
  none, some, arith, length, get_or, set, length-set, get_or-set_ne, ne→==, All, map, length-append,
}
use mathlib.Core.Path.{subst}
use native.Mathlib.Decide.{dec_lt}
use native.Mathlib.Nat.{mod-lt, mod-eq_of_lt, mod-eq-sub-mod}
use btc_multipool_cache_mine.Registry.{WorkItem}
use btc_multipool_cache_mine.Adapters.PoolRouter.{
  failover, round_robin, AdapterBase, PoolRouter, poll_adapter, poll_first, poll_from,
  poll_round_robin, poll_failover, poll_next,
}

-- An index behind the end of the ring comes round once.
around : (n a : ℕ) → n ≤ a → a < n + n → a % n ≡ a - n
around n a lo hi = mod-eq-sub-mod lo ∙ mod-eq_of_lt (omega arith)

turns_differ : (n rr i j : ℕ) → rr < n → i < j → j < n → (rr + j) % n ≢ (rr + i) % n
turns_differ n rr i j hr hi hj same = elim (dec_lt (rr + i) n) [
  | yes a ↦ elim (dec_lt (rr + j) n) [
    | yes b ↦ absurd (omega (arith, same, mod-eq_of_lt a, mod-eq_of_lt b))
    | no b ↦
        absurd (omega (arith, same, mod-eq_of_lt a, around n (rr + j) (omega arith) (omega arith)))
  ]
  | no a ↦ absurd (
      omega (
        arith,
        same,
        around n (rr + i) (omega arith) (omega arith),
        around n (rr + j) (omega arith) (omega arith),
      ))
]

module _ {ℓ} {S : Type ℓ} (base : AdapterBase S) where
  -- The work that the adapter at an index would give.
  abbrev pub gives : List (Option S) → ℕ → Option WorkItem
  gives adapters i = (poll_adapter base (get_or adapters i none)).0

  -- The adapter at an index after a poll.
  abbrev pub polled : List (Option S) → ℕ → Option S
  polled adapters i = (poll_adapter base (get_or adapters i none)).1

  -- A poll of one adapter leaves what the others would give.
  gives-set :
      (adapters : List (Option S)) (at i : ℕ)
      → i ≢ at
      → gives (set adapters at (polled adapters at)) i ≡ gives adapters i
  gives-set adapters at i ne =
      ap (λ o. (poll_adapter base o).0)
        (get_or-set_ne adapters at i (polled adapters at) none (λ e. ne (sym e)))

  poll_from_goes_on :
      (left n idx : ℕ) (adapters : List (Option S))
      → length adapters ≡ n
      → gives adapters (idx % n) ≡ none
      → poll_from base (suc left) idx adapters
        ≡ poll_from base left (idx + 1) (set adapters (idx % n) (polled adapters (idx % n)))
  unfolding poll_from
  poll_from_goes_on left n idx adapters len =
      subst
        (λ m.
          gives adapters (idx % m) ≡ none
          → poll_from base (suc left) idx adapters
            ≡ poll_from base left (idx + 1) (set adapters (idx % m) (polled adapters (idx % m))))
        len (λ h. rw (h, poll_from))

  poll_from_stops :
      (left n idx : ℕ) (w : WorkItem) (adapters : List (Option S))
      → length adapters ≡ n
      → gives adapters (idx % n) ≡ some w
      → (poll_from base (suc left) idx adapters).0 ≡ some (w, (idx % n + 1) % n)
  unfolding poll_from
  poll_from_stops left n idx w adapters len =
      subst
        (λ m.
          gives adapters (idx % m) ≡ some w
          → (poll_from base (suc left) idx adapters).0 ≡ some (w, (idx % m + 1) % m))
        len (λ h. rw (h, poll_from))

  poll_from-finds :
      (left n rr i k : ℕ) (w : WorkItem) (adapters : List (Option S))
      → length adapters ≡ n
      → rr < n
      → k < n
      → i ≤ k
      → k < i + left
      → ((j : ℕ) → i ≤ j → j < k → gives adapters ((rr + j) % n) ≡ none)
      → gives adapters ((rr + k) % n) ≡ some w
      → (poll_from base left (rr + i) adapters).0 ≡ some (w, ((rr + k) % n + 1) % n)
  poll_from-finds zero n rr i k w adapters len hr hk lo hi before found = absurd (omega arith)
  poll_from-finds (suc left) n rr i k w adapters len hr hk lo hi before found = elim (dec_lt i k) [
    | no same ↦
        let e : i ≡ k = omega arith in rw e (poll_from_stops left n (rr + k) w adapters len found)
    | yes less ↦
        let at = (rr + i) % n in
        let next : rr + i + 1 ≡ rr + (i + 1) = omega arith in
        rw (poll_from_goes_on left n (rr + i) adapters len (before i (omega arith) less), next)
          (poll_from-finds left n rr (i + 1) k w (set adapters at (polled adapters at))
            (length-set adapters at (polled adapters at) ∙ len) hr hk (omega arith) (omega arith)
            (λ j after below.
              gives-set adapters at ((rr + j) % n)
                (turns_differ n rr i j hr (omega arith) (omega arith))
              ∙ before j (omega arith) below)
            (gives-set adapters at ((rr + k) % n) (turns_differ n rr i k hr less hk) ∙ found))
  ]

  poll_from-none :
      (left n rr i : ℕ) (adapters : List (Option S))
      → length adapters ≡ n
      → rr < n
      → i + left ≤ n
      → ((j : ℕ) → i ≤ j → j < i + left → gives adapters ((rr + j) % n) ≡ none)
      → (poll_from base left (rr + i) adapters).0 ≡ none
  poll_from-none zero n rr i adapters len hr hi before = unfold poll_from in refl
  poll_from-none (suc left) n rr i adapters len hr hi before =
      let at = (rr + i) % n in
      let next : rr + i + 1 ≡ rr + (i + 1) = omega arith in
      rw
        (
          poll_from_goes_on left n (rr + i) adapters len (before i (omega arith) (omega arith)),
          next,
        )
        (poll_from-none left n rr (i + 1) (set adapters at (polled adapters at))
          (length-set adapters at (polled adapters at) ∙ len) hr (omega arith)
          (λ j after below.
            gives-set adapters at ((rr + j) % n)
              (turns_differ n rr i j hr (omega arith) (omega arith))
            ∙ before j (omega arith) (omega arith)))

  poll_first-first :
      (before after : List (Option S)) (a : Option S) (w : WorkItem)
      → All (λ o. (poll_adapter base o).0 ≡ none) before
      → (poll_adapter base a).0 ≡ some w
      → poll_first base (before ++ a ∷ after)
        ≡ (some w, map (λ o. (poll_adapter base o).1) before ++ (poll_adapter base a).1 ∷ after)
  unfolding poll_first
  poll_first-first [] after a w idle found = rw (found, poll_first)
  poll_first-first (b ∷ before) after a w idle found =
      rw (idle.0, poll_first, poll_first-first before after a w idle.1 found)

  -- A router that takes turns.
  abbrev pub in_turn : List (Option S) → ℕ → PoolRouter S
  in_turn adapters rr = record { strategy = round_robin; adapters = adapters; rr_index = rr }

  -- In turn, with an index inside the ring: if the first k adapters from the index give nothing
  -- and the next one gives work, `pollNext` returns that work, and the next call starts right
  -- behind that adapter.
  pub poll_next-turns :
      (k rr : ℕ) (w : WorkItem) (adapters : List (Option S))
      → rr < length adapters
      → k < length adapters
      → ((j : ℕ) → j < k → gives adapters ((rr + j) % length adapters) ≡ none)
      → gives adapters ((rr + k) % length adapters) ≡ some w
      → ((poll_next base (in_turn adapters rr)).0 ≡ some w)
        × ((poll_next base (in_turn adapters rr)).1.rr_index
            ≡ ((rr + k) % length adapters + 1) % length adapters)
  unfolding poll_next poll_round_robin poll_from
  poll_next-turns k rr w adapters hr hk before found =
      let n = length adapters in
      let start : rr + 0 ≡ rr = omega arith in
      let run =
        subst (λ idx. (poll_from base n idx adapters).0 ≡ some (w, ((rr + k) % n + 1) % n)) start
          (poll_from-finds n n rr 0 k w adapters refl hr hk (omega arith) (omega arith)
            (λ j lo hi. before j hi) found) in
      rw (ne→== n 0 (λ e. absurd (omega arith)), run) (refl, refl)

  pub poll_next-idle :
      (rr : ℕ) (adapters : List (Option S))
      → rr < length adapters
      → ((j : ℕ) → j < length adapters → gives adapters j ≡ none)
      → ((poll_next base (in_turn adapters rr)).0 ≡ none)
        × ((poll_next base (in_turn adapters rr)).1.rr_index ≡ (rr + 1) % length adapters)
  unfolding poll_next poll_round_robin poll_from
  poll_next-idle rr adapters hr idle =
      let n = length adapters in
      let start : rr + 0 ≡ rr = omega arith in
      let run =
        subst (λ idx. (poll_from base n idx adapters).0 ≡ none) start
          (poll_from-none n n rr 0 adapters refl hr (omega arith)
            (λ j lo hi. idle ((rr + j) % n) (mod-lt (rr + j) (omega arith)))) in
      rw (ne→== n 0 (λ e. absurd (omega arith)), run) (refl, refl)

  -- In failover, `pollNext` returns the work of the first adapter that has some; those before it
  -- have been polled once, and those behind it are untouched.
  pub poll_failover-first :
      (before after : List (Option S)) (a : Option S) (w : WorkItem) (rr : ℕ)
      → All (λ o. (poll_adapter base o).0 ≡ none) before
      → (poll_adapter base a).0 ≡ some w
      → (let r : PoolRouter S = record {
        strategy = failover;
        adapters = before ++ a ∷ after;
        rr_index = rr;
      } in
          ((poll_next base r).0 ≡ some w)
          × ((poll_next base r).1.adapters
              ≡ map (λ o. (poll_adapter base o).1) before ++ (poll_adapter base a).1 ∷ after))
  unfolding poll_next poll_failover
  poll_failover-first before after a w rr idle found =
      let run = poll_first-first before after a w idle found in
      rw
        (
          ne→== (length (before ++ a ∷ after)) 0
              (λ e. absurd (omega (arith, length-append before (a ∷ after)))),
          run,
        )
        (refl, refl)
