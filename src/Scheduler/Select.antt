-- ===== src/Scheduler/Select.antt =====
-- `SchedulerState::select` of src/scheduler/scheduler.h against the list of weighted copies.
use btc_multipool_cache_mine.Base.{
  ℕ, zero, suc, ◌+◌, ◌-◌, ◌≤◌, ◌<◌, min, max, ◌≡◌, refl, ap, sym, ◌∙◌, List, [], ◌∷◌, ◌++◌,
  append_assoc, append-nil, Option, none, some, Option-cases, inl, inr, length, take, replicate,
  arith, length-append, length-replicate, length-take, le→leb, lt→leb,
}
use mathlib.Core.Path.{subst}
use native.Mathlib.Decide.{dec_lt}
use btc_multipool_cache_mine.Registry.{WorkSlotSnapshot}
use btc_multipool_cache_mine.Scheduler.{
  SchedulerState, capped, penalized, weight, push_copies, select_loop, select,
}

-- What a map entry stands for: an absent or zero weight is 1, an absent penalty is 0.
abbrev pub weight_of : Option ℕ → ℕ
weight_of none = 1
weight_of (some w) = max 1 w

abbrev pub penalty_of : Option ℕ → ℕ
penalty_of none = 0
penalty_of (some p) = p

capped-min : (cap : ℕ) (w : Option ℕ) → capped cap w ≡ min (max 1 cap) (weight_of w)
unfolding capped
capped-min cap none = ground arith
capped-min cap (some w) = ground arith

penalized-max : (w : ℕ) (p : Option ℕ) → 1 ≤ w → penalized w p ≡ max 1 (w - penalty_of p)
unfolding penalized
penalized-max w none h = ground arith
penalized-max w (some p) h = ground arith

positive : (w : Option ℕ) (cap : ℕ) → 1 ≤ min (max 1 cap) (weight_of w)
positive none cap = ground arith
positive (some w) cap = ground arith

-- The weight of a source is its configured weight (1 where none or 0 is set), at most the cap (1
-- where the cap is 0), less its penalty, and never below 1.
pub weight-max :
    (s : SchedulerState) (sid : ℕ)
    → weight s sid
      ≡ max 1 (
          min (max 1 s.max_weight_cap) (weight_of (s.source_weight sid))
          - penalty_of (s.source_penalty sid))
unfolding weight
weight-max s sid =
    let w = capped-min s.max_weight_cap (s.source_weight sid) in
    penalized-max (capped s.max_weight_cap (s.source_weight sid)) (s.source_penalty sid)
      (subst (λ n. 1 ≤ n) (sym w) (positive (s.source_weight sid) s.max_weight_cap))
    ∙ ap (λ n. max 1 (n - penalty_of (s.source_penalty sid))) w

module _ {ℓ} {A : Type ℓ} where
  take_all : (n : ℕ) (xs : List A) → length xs ≤ n → take n xs ≡ xs
  take_all zero [] h = refl
  take_all zero (x ∷ xs) h = absurd (omega arith)
  take_all (suc n) [] h = refl
  take_all (suc n) (x ∷ xs) h = ap (λ ys. x ∷ ys) (take_all n xs (omega arith))

  take-append_long : (n : ℕ) (xs ys : List A) → n ≤ length xs → take n (xs ++ ys) ≡ take n xs
  take-append_long zero xs ys h = refl
  take-append_long (suc n) [] ys h = absurd (omega arith)
  take-append_long (suc n) (x ∷ xs) ys h =
      ap (λ zs. x ∷ zs) (take-append_long n xs ys (omega arith))

ends :
    (out : List ℕ) (wid : ℕ) (rest : List ℕ) (n : ℕ)
    → n ≡ length out + 1
    → out ++ (wid ∷ []) ≡ take n (out ++ (wid ∷ rest))
ends [] wid rest n e = rw e
ends (x ∷ out) wid rest zero e = absurd (omega arith)
ends (x ∷ out) wid rest (suc n) e = ap (λ ys. x ∷ ys) (ends out wid rest n (omega arith))

-- The first `max 1 max_ids` of the copies.
push_copies-take :
    (k wid max_ids : ℕ) (out : List ℕ)
    → length out < max 1 max_ids
    → push_copies k wid max_ids out ≡ take (max 1 max_ids) (out ++ replicate k wid)
unfolding push_copies
push_copies-take zero wid m out h = rw (append-nil out) (sym (take_all (max 1 m) out (omega arith)))
push_copies-take (suc k) wid m out h = elim (dec_lt (length (out ++ (wid ∷ []))) m) [
  | yes lt ↦ rw (
    lt→leb m (length (out ++ (wid ∷ []))) lt,
    push_copies-take k wid m (out ++ (wid ∷ [])) (omega arith),
    append_assoc out (wid ∷ []) (replicate k wid),
  )
  | no ge ↦
      let grown = length-append out (wid ∷ []) in
      rw (le→leb m (length (out ++ (wid ∷ []))) (omega arith))
        (ends out wid (replicate k wid) (max 1 m) (ground arith))
]

-- Every copy of every known work item, in order.
abbrev pub wanted : SchedulerState → (ℕ → Option WorkSlotSnapshot) → List ℕ → List ℕ
wanted s snaps [] = []
wanted s snaps (wid ∷ wids) = elim (snaps wid) [
  | none ↦ wanted s snaps wids
  | some snap ↦ replicate (weight s snap.item.source_id) wid ++ wanted s snaps wids
]

select_loop-take :
    (s : SchedulerState) (snaps : ℕ → Option WorkSlotSnapshot) (max_ids : ℕ) (wids out : List ℕ)
    → length out < max 1 max_ids
    → select_loop s snaps max_ids wids out ≡ take (max 1 max_ids) (out ++ wanted s snaps wids)
unfolding select_loop
select_loop-take s snaps m [] out h =
    rw (append-nil out) (sym (take_all (max 1 m) out (omega arith)))
select_loop-take s snaps m (wid ∷ wids) out h = elim (Option-cases (snaps wid)) [
  | inl e ↦ rw (e, select_loop, wanted) (select_loop-take s snaps m wids out h)
  | inr (snap, e) ↦
      let w = weight s snap.item.source_id in
      let copies = replicate w wid in
      let pushed = push_copies-take w wid m out h in
      let most = weight-max s snap.item.source_id in
      let grown : length (out ++ copies) ≡ length out + w =
        length-append out copies ∙ ap (λ n. length out + n) (length-replicate w wid) in
      let full = length-take (max 1 m) (out ++ copies) in
      elim (dec_lt (length out + w) (max 1 m)) [
        | yes lt ↦ rw (
          e,
          select_loop,
          wanted,
          pushed,
          take_all (max 1 m) (out ++ copies) (omega arith),
          lt→leb m (length (out ++ copies)) (omega arith),
          select_loop-take s snaps m wids (out ++ copies) (omega arith),
          append_assoc out copies (wanted s snaps wids),
        )
        | no ge ↦ rw (
          e,
          select_loop,
          wanted,
          pushed,
          le→leb m (length (take (max 1 m) (out ++ copies))) (omega arith),
          ← append_assoc out copies (wanted s snaps wids),
          take-append_long (max 1 m) (out ++ copies) (wanted s snaps wids) (omega arith),
        )
      ]
]

-- `select` returns the beginning of the list that has each known work id as often as its source's
-- weight, in order: the first max_ids entries, and one entry where max_ids is 0.
pub select-take :
    (s : SchedulerState) (snaps : ℕ → Option WorkSlotSnapshot) (max_ids : ℕ) (wids : List ℕ)
    → (select wids snaps max_ids s).0 ≡ take (max 1 max_ids) (wanted s snaps wids)
unfolding select
select-take s snaps m wids = select_loop-take s snaps m wids [] (omega arith)
