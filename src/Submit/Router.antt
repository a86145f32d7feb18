-- ===== src/Submit/Router.antt =====
-- src/submit/submit_router.cc, `SubmitRouter`: a hit is verified, queued and passed on.
-- The callback is code of the caller: a call of it is a record in `called`. The ledger that can be
-- attached is never read.
pub mod Effects
use btc_multipool_cache_mine.Base.{
  ℕ, List, [], ◌∷◌, Option, none, some, Bool, true, false, if◌then◌else◌, take,
}
use btc_multipool_cache_mine.Store.Outbox.{PendingSubmit, Outbox, enqueue, drop_entry}
use btc_multipool_cache_mine.Submit.Sha256.{sha256}
use btc_multipool_cache_mine.Submit.HashTarget.{is_hash_leq_target}

pub record HitRecord : Type 0 where
  pub work_id : ℕ
  pub nonce : ℕ
  pub header80 : List ℕ

-- Whether there is a callback, and the outbox where one is attached.
pub record SubmitRouter : Type 0 where
  pub has_cb : Bool
  pub outbox : Option Outbox

pub record Routed : Type 0 where
  pub result : Bool
  pub called : List HitRecord
  pub router : SubmitRouter

abbrev pub attach_outbox : Outbox → SubmitRouter → SubmitRouter
attach_outbox o r = record r { outbox = some o }

abbrev pub pending : HitRecord → PendingSubmit
pending rec = record { work_id = rec.work_id; nonce = rec.nonce; header80 = rec.header80 }

unfoldable pub enqueue_in : PendingSubmit → Option Outbox → Option Outbox
enqueue_in s none = none
enqueue_in s (some o) = some (enqueue s o)

unfoldable pub verify_and_submit : List ℕ → List ℕ → ℕ → ℕ → SubmitRouter → Routed
verify_and_submit header80_be target_le work_id nonce r =
    let h1 = sha256 header80_be in
    let h2 = sha256 h1 in
    let rec : HitRecord = record {
      work_id = work_id;
      nonce = nonce;
      header80 = take 80 header80_be;
    } in
    if is_hash_leq_target h2 target_le
    then record {
      result = true;
      called = if r.has_cb then rec ∷ [] else [];
      router = record r { outbox = enqueue_in (pending rec) r.outbox };
    }
    else record { result = false; called = []; router = r }

unfoldable pub route_raw : HitRecord → SubmitRouter → Routed
route_raw rec r = record {
  result = r.has_cb;
  called = if r.has_cb then rec ∷ [] else [];
  router = record r { outbox = enqueue_in (pending rec) r.outbox };
}

unfoldable pub drop_in : ℕ → ℕ → Option Outbox → Option Outbox
drop_in work_id nonce none = none
drop_in work_id nonce (some o) = some (drop_entry work_id nonce o).1

unfoldable pub on_accepted : ℕ → ℕ → SubmitRouter → SubmitRouter
on_accepted work_id nonce r = record r { outbox = drop_in work_id nonce r.outbox }
