-- ===== src/Scheduler.antt =====
-- src/scheduler/scheduler.h: which work items the next launch takes, and how often each.
-- The weights and penalties are maps from source ids, the snapshots a map from work ids.
pub mod Select
use btc_multipool_cache_mine.Base.{
  ℕ, zero, suc, ◌+◌, ◌-◌, List, [], ◌∷◌, ◌++◌, Option, none, some, if◌then◌else◌, leb, ltb, ◌==◌,
  length, u64,
}
use btc_multipool_cache_mine.Registry.{WorkSlotSnapshot}

pub record SchedulerState : Type 0 where
  pub source_weight : ℕ → Option ℕ
  pub tick : ℕ
  pub source_penalty : ℕ → Option ℕ
  pub max_weight_cap : ℕ

-- `max_ids` when the caller names none.
abbrev pub default_max_ids : ℕ
default_max_ids = 64

unfoldable pub capped : ℕ → Option ℕ → ℕ
capped max_weight_cap none = 1
capped max_weight_cap (some weight) =
    let cap = (if max_weight_cap == 0 then 1 else max_weight_cap) in
    if ltb 0 weight then (if ltb cap weight then cap else weight) else 1

unfoldable pub penalized : ℕ → Option ℕ → ℕ
penalized w none = w
penalized w (some penalty) = if ltb 0 penalty then (if leb w penalty then 1 else w - penalty) else w

unfoldable pub weight : SchedulerState → ℕ → ℕ
weight s sid = penalized (capped s.max_weight_cap (s.source_weight sid)) (s.source_penalty sid)

-- The inner loop, on the copies that are left.
unfoldable pub push_copies : ℕ → ℕ → ℕ → List ℕ → List ℕ
push_copies zero wid max_ids out = out
push_copies (suc k) wid max_ids out =
    let pushed = out ++ (wid ∷ []) in
    let rest = push_copies k wid max_ids pushed in
    if leb max_ids (length pushed) then pushed else rest

-- The outer loop.
unfoldable pub select_loop :
    SchedulerState → (ℕ → Option WorkSlotSnapshot) → ℕ → List ℕ → List ℕ → List ℕ
select_loop s snaps max_ids [] out = out
select_loop s snaps max_ids (wid ∷ wids) out = elim (snaps wid) [
  | none ↦ select_loop s snaps max_ids wids out
  | some snap ↦
      let pushed = push_copies (weight s snap.item.source_id) wid max_ids out in
      let rest = select_loop s snaps max_ids wids pushed in
      if leb max_ids (length pushed) then pushed else rest
]

unfoldable pub select :
    List ℕ → (ℕ → Option WorkSlotSnapshot) → ℕ → SchedulerState → List ℕ × SchedulerState
select work_ids snaps max_ids s = (
  select_loop s snaps max_ids work_ids [],
  record {
    source_weight = s.source_weight;
    tick = u64 (s.tick + 1);
    source_penalty = s.source_penalty;
    max_weight_cap = s.max_weight_cap;
  },
)
