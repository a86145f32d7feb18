-- ===== src/Tools/Runner/Replay.antt =====
-- src/tools/stratum_registry_runner.cpp: `replay_pending` on the outbox that the router has attached,
-- and when the outbox is rotated. The outbox and the one in the router are one object.
pub mod Order
use btc_multipool_cache_mine.Base.{
  ℕ, zero, suc, ◌+◌, ◌-◌, ◌*◌, List, [], ◌∷◌, ◌++◌, Option, none, some, Bool, true, false, not,
  ◌&&◌, ◌||◌, ◌==◌, ltb, leb, if◌then◌else◌, u64,
}
use btc_multipool_cache_mine.Store.Outbox.{PendingSubmit, Outbox, try_dequeue}
use btc_multipool_cache_mine.Store.Outbox.Rotation.{Files, rotate_file}
use btc_multipool_cache_mine.Submit.Router.{HitRecord, SubmitRouter, route_raw}

-- The hit that is made of an entry.
abbrev pub replayed : PendingSubmit → HitRecord
replayed s = record { work_id = s.work_id; nonce = s.nonce; header80 = s.header80 }

-- What a round leaves of the outbox, which the router changes.
abbrev pub outbox_of : Outbox → Option Outbox → Outbox
outbox_of o none = o
outbox_of o (some o') = o'

-- `left` rounds up to the limit of 128; the hits that were given to the callback, and the outbox.
unfoldable pub replay_loop : Bool → ℕ → Outbox → List HitRecord × Outbox
replay_loop has_cb zero o = ([], o)
replay_loop has_cb (suc left) o =
    let (front, o') = try_dequeue o in
    elim front [
      | none ↦ ([], o')
      | some s ↦
          let routed = route_raw (replayed s) (record { has_cb = has_cb; outbox = some o' }) in
          let (hits, last) = replay_loop has_cb left (outbox_of o' routed.router.outbox) in
          (routed.called ++ hits, last)
    ]

unfoldable pub replay_pending : Bool → Outbox → List HitRecord × Outbox
replay_pending has_cb o = replay_loop has_cb 128 o

-- `OutboxCfg`, less the path.
pub record OutboxConfig : Type 0 where
  pub max_bytes : ℕ
  pub rotate_interval_sec : ℕ

-- Whether the outbox file is rotated: `size` is that of the file where it can be opened. The
-- clock's difference is unsigned.
unfoldable pub needs_rotation : OutboxConfig → Bool → Option ℕ → ℕ → ℕ → Bool
needs_rotation cfg force none now_ms last_ms =
    force
    || (not (cfg.rotate_interval_sec == 0)
        && ltb (u64 (cfg.rotate_interval_sec * 1000))
            (u64 (now_ms + 0x10000000000000000 - last_ms)))
needs_rotation cfg force (some size) now_ms last_ms =
    (force || leb cfg.max_bytes size)
    || (not (cfg.rotate_interval_sec == 0)
        && ltb (u64 (cfg.rotate_interval_sec * 1000))
            (u64 (now_ms + 0x10000000000000000 - last_ms)))

-- The file system's answers are those of `rotate_file`; the time of the last rotation comes out.
unfoldable pub rotate_outbox_if_needed :
    OutboxConfig → Bool → Option ℕ → ℕ → ℕ → Bool → Bool → Bool → Files → Files × ℕ
rotate_outbox_if_needed cfg force size now_ms last_ms renamed copied opened f =
    if needs_rotation cfg force size now_ms last_ms
    then ((rotate_file renamed copied opened f).1, now_ms)
    else (f, last_ms)
