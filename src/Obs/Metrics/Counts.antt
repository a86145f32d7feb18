-- ===== src/Obs/Metrics/Counts.antt =====
-- src/obs/metrics.cc: what the counters have counted.
use btc_multipool_cache_mine.Base.{
  ℕ, ◌+◌, ◌<◌, ◌^◌, ◌≡◌, ap, ◌∙◌, List, [], ◌∷◌, false, Bool-cases, inl, inr, if◌then◌else◌, u64,
  arith,
}
use btc_multipool_cache_mine.Base.Text.{same_text, same_text_refl, same_text_sound}
use btc_multipool_cache_mine.Obs.Metrics.{MetricsRegistry, add_to, increment}

-- A counter that is not there reads as 0.
abbrev pub counter : List ℕ → List (List ℕ × ℕ) → ℕ
counter name [] = 0
counter name ((k, v) ∷ t) = if same_text k name then v else counter name t

counter-add_to_self :
    (name : List ℕ) (delta : ℕ) (t : List (List ℕ × ℕ))
    → counter name (add_to name delta t) ≡ u64 (counter name t + delta)
unfolding add_to
counter-add_to_self name delta [] = rw (same_text_refl name) (omega arith)
counter-add_to_self name delta ((k, v) ∷ t) = elim (Bool-cases (same_text k name)) [
  | inl e ↦ rw (e, counter, e)
  | inr e ↦ rw (e, counter, e) (counter-add_to_self name delta t)
]

counter-add_to_ne :
    (name other : List ℕ) (delta : ℕ) (t : List (List ℕ × ℕ))
    → same_text other name ≡ false
    → counter name (add_to other delta t) ≡ counter name t
unfolding add_to
counter-add_to_ne name other delta [] ne = rw ne
counter-add_to_ne name other delta ((k, v) ∷ t) ne = elim (Bool-cases (same_text k other)) [
  | inl e ↦ rw (same_text_sound k other e, same_text_refl other, counter, ne)
  | inr e ↦ rw (e, counter, counter-add_to_ne name other delta t ne)
]

counter-add_to :
    (name other : List ℕ) (delta : ℕ) (t : List (List ℕ × ℕ))
    → counter name (add_to other delta t)
      ≡ (if same_text other name then u64 (counter name t + delta) else counter name t)
counter-add_to name other delta t = elim (Bool-cases (same_text other name)) [
  | inl e ↦ rw e (
      ap (λ k. counter name (add_to k delta t)) (same_text_sound other name e)
      ∙ counter-add_to_self name delta t)
  | inr e ↦ rw e (counter-add_to_ne name other delta t e)
]

unfoldable pub increments : List (List ℕ × ℕ) → MetricsRegistry → MetricsRegistry
increments [] r = r
increments ((name, delta) ∷ ds) r = increments ds (increment name delta r)

unfoldable pub total : List ℕ → List (List ℕ × ℕ) → ℕ
total name [] = 0
total name ((k, d) ∷ ds) = (if same_text k name then d else 0) + total name ds

-- A counter has the sum of its increments, modulo 2 ^ 64.
pub counter-increments :
    (name : List ℕ) (ds : List (List ℕ × ℕ)) (r : MetricsRegistry)
    → counter name r.counters < 2 ^ 64
    → counter name (increments ds r).counters ≡ u64 (counter name r.counters + total name ds)
unfolding increments increment total
counter-increments name [] r h = omega arith
counter-increments name ((k, d) ∷ ds) r h =
    let step = counter-add_to name k d r.counters in
    elim (Bool-cases (same_text k name)) [
      | inl e ↦
          let now : counter name (add_to k d r.counters) ≡ u64 (counter name r.counters + d) =
            rw e at step in
          rw e
            (counter-increments name ds (increment k d r) (omega (arith, now)) ∙ omega (arith, now))
      | inr e ↦
          let now : counter name (add_to k d r.counters) ≡ counter name r.counters = rw e at step in
          rw e
            (counter-increments name ds (increment k d r) (omega (arith, now)) ∙ omega (arith, now))
    ]
