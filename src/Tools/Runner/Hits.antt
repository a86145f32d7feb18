-- ===== src/Tools/Runner/Hits.antt =====
-- src/tools/stratum_registry_runner.cpp: what becomes of the hits that are drained from the device.
-- The node is the argument `call`, as in the block submitter; metrics are the counters of a record.
pub mod Routes
use btc_multipool_cache_mine.Base.{
  ℕ, ◌+◌, List, [], ◌∷◌, ◌++◌, Option, none, some, Bool, true, false, ◌&&◌, if◌then◌else◌,
}
use btc_multipool_cache_mine.Base.Table.{lookup}
use btc_multipool_cache_mine.Registry.{WorkSlot, WorkSlotSnapshot, snapshot}
use btc_multipool_cache_mine.Submit.Sha256.{sha256}
use btc_multipool_cache_mine.Submit.HashTarget.{is_hash_leq_target}
use btc_multipool_cache_mine.Submit.Router.{SubmitRouter, Routed, verify_and_submit}
use btc_multipool_cache_mine.Submit.Router
use btc_multipool_cache_mine.Submit.Gbt.{GbtSubmitter, has_coinbase, submit_header}
use btc_multipool_cache_mine.Cuda.HitRing.{HitRecord}
use btc_multipool_cache_mine.Tools.Runner.Jobs.{host_header}

-- `active_ids` and `id_to_snap`: `emplace` keeps what is there.
pub record ActiveJobs : Type 0 where
  pub active_ids : List ℕ
  pub id_to_snap : List (ℕ × WorkSlotSnapshot)

unfoldable pub emplace :
    ℕ → WorkSlotSnapshot → List (ℕ × WorkSlotSnapshot) → List (ℕ × WorkSlotSnapshot)
emplace k v t = elim (lookup k t) [ none ↦ t ++ (k, v) ∷ [] | some old ↦ t ]

unfoldable pub collect : List WorkSlot → ActiveJobs → ActiveJobs
collect [] jobs = jobs
collect (slot ∷ slots) jobs = collect slots (
    if slot.item.active
    then record {
      active_ids = jobs.active_ids ++ slot.item.work_id ∷ [];
      id_to_snap = emplace slot.item.work_id (snapshot slot) jobs.id_to_snap;
    }
    else jobs)

-- The router, what its callback was given, what the node was given, and the counters.
pub record Mined : Type 0 where
  pub router : SubmitRouter
  pub called : List Router.HitRecord
  pub blocks_gbt_ok : ℕ
  pub blocks_gbt_no_cb : ℕ
  pub blocks_gbt_fail : ℕ
  pub shares : ℕ

unfoldable pub submit_block : (List ℕ → Bool) → GbtSubmitter → List ℕ → Mined → Mined
submit_block call gbt header m =
    if submit_header call header gbt
    then record m { blocks_gbt_ok = m.blocks_gbt_ok + 1 }
    else record m {
      blocks_gbt_no_cb = m.blocks_gbt_no_cb + (if has_coinbase gbt then 0 else 1);
      blocks_gbt_fail = m.blocks_gbt_fail + 1;
    }

unfoldable pub submit_to_router : List ℕ → List ℕ → ℕ → ℕ → Mined → Mined
submit_to_router header target work_id nonce m =
    let routed = verify_and_submit header target work_id nonce m.router in
    record m { router = routed.router; called = m.called ++ routed.called; shares = m.shares + 1 }

-- A block goes to the node where there is a submitter, and is no share then.
unfoldable pub classify :
    (List ℕ → Bool) → Option GbtSubmitter → List ℕ → WorkSlotSnapshot → HitRecord → Mined → Mined
classify call none header s hit m =
    submit_to_router header s.item.share_target_le hit.work_id hit.nonce m
classify call (some gbt) header s hit m =
    if is_hash_leq_target (sha256 (sha256 header)) s.item.block_target_le
    then submit_block call gbt header m
    else submit_to_router header s.item.share_target_le hit.work_id hit.nonce m

unfoldable pub process_hit :
    (List ℕ → Bool) → Option GbtSubmitter → List (ℕ × WorkSlotSnapshot) → HitRecord → Mined → Mined
process_hit call gbt id_to_snap hit m = elim (lookup hit.work_id id_to_snap) [
  | none ↦ m
  | some s ↦ classify call gbt (host_header s.item hit.nonce) s hit m
]

unfoldable pub process_hits :
    (List ℕ → Bool)
    → Option GbtSubmitter
    → List (ℕ × WorkSlotSnapshot)
    → List HitRecord
    → Mined
    → Mined
process_hits call gbt id_to_snap [] m = m
process_hits call gbt id_to_snap (hit ∷ hits) m =
    process_hits call gbt id_to_snap hits (process_hit call gbt id_to_snap hit m)
