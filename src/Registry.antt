-- ===== src/Registry.antt =====
-- src/registry/: the work items, and the slots that hold the current one of each source.
-- `set` and `get` are one step each: what a reader sees in the middle of a `set` is not modelled.
pub mod Laws
use btc_multipool_cache_mine.Base.{
  ℕ, ◌+◌, List, Option, none, some, Bool, false, if◌then◌else◌, leb, length, get_or, set, replicate,
  u64, ◌==◌,
}

pub record GpuJobConst : Type 0 where
  pub midstate_le : List ℕ

pub record WorkItem : Type 0 where
  pub work_id : ℕ
  pub source_id : ℕ
  pub version : ℕ
  pub ntime : ℕ
  pub nbits : ℕ
  pub nonce_start : ℕ
  pub prevhash_le : List ℕ
  pub merkle_root_le : List ℕ
  pub share_target_le : List ℕ
  pub block_target_le : List ℕ
  pub vmask : ℕ
  pub ntime_min : ℕ
  pub ntime_max : ℕ
  pub extranonce2_size : ℕ
  pub clean_jobs : Bool
  pub active : Bool
  pub found_submitted : Bool

pub record WorkSlot : Type 0 where
  pub gen : ℕ
  pub item : WorkItem
  pub job_const : GpuJobConst

pub record WorkSlotSnapshot : Type 0 where
  pub gen : ℕ
  pub item : WorkItem
  pub job_const : GpuJobConst

abbrev pub zero_words : List ℕ
zero_words = replicate 8 0

-- The values of the member initialisers.
abbrev pub default_job_const : GpuJobConst
default_job_const = record { midstate_le = zero_words }

abbrev pub default_item : WorkItem
default_item = record {
  work_id = 0;
  source_id = 0;
  version = 0;
  ntime = 0;
  nbits = 0;
  nonce_start = 0;
  prevhash_le = zero_words;
  merkle_root_le = zero_words;
  share_target_le = zero_words;
  block_target_le = zero_words;
  vmask = 0;
  ntime_min = 0;
  ntime_max = 0;
  extranonce2_size = 0;
  clean_jobs = false;
  active = false;
  found_submitted = false;
}

abbrev pub default_slot : WorkSlot
default_slot = record { gen = 0; item = default_item; job_const = default_job_const }

pub record WorkSourceRegistry : Type 0 where
  pub slots : List WorkSlot

pub data Thrown : Type 0 where
  invalid_argument out_of_range : Thrown

pub data Result {ℓ} (A : Type ℓ) : Type ℓ where
  returns : A → Result A
  throws : Thrown → Result A

unfoldable pub create : ℕ → Result WorkSourceRegistry
create num_slots =
    if num_slots == 0
    then throws invalid_argument
    else returns (record { slots = replicate num_slots default_slot })

unfoldable pub size : WorkSourceRegistry → ℕ
size r = length r.slots

abbrev pub published : WorkSlot → WorkItem → GpuJobConst → WorkSlot
published slot item job_const = record {
  gen = u64 (slot.gen + 1);
  item = item;
  job_const = job_const;
}

unfoldable pub set_slot :
    ℕ → WorkItem → GpuJobConst → WorkSourceRegistry → Result WorkSourceRegistry
set_slot slot_index item job_const r =
    if leb (length r.slots) slot_index
    then throws out_of_range
    else returns (record {
      slots =
          set r.slots slot_index
            (published (get_or r.slots slot_index default_slot) item job_const);
    })

abbrev pub snapshot : WorkSlot → WorkSlotSnapshot
snapshot s = record { gen = s.gen; item = s.item; job_const = s.job_const }

unfoldable pub get : ℕ → WorkSourceRegistry → Option WorkSlotSnapshot
get slot_index r =
    if leb (length r.slots) slot_index
    then none
    else some (snapshot (get_or r.slots slot_index default_slot))
