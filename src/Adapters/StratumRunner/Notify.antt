-- ===== src/Adapters/StratumRunner/Notify.antt =====
-- The `mining.notify` handler of src/adapters/stratum_runner.cc: the inputs of a job.
-- `sscanf` leaves its variable as it was where a pair is not hexadecimal: that, and a branch of
-- fewer than 64 digits, which is read past its end, are faults.
use btc_multipool_cache_mine.Base.{
  ℕ, ◌+◌, ◌-◌, ◌*◌, List, [], ◌∷◌, ◌++◌, Option, none, some, Bool, false, if◌then◌else◌, ltb, leb,
  u32, length, take, replicate, ◌&&◌,
}
use btc_multipool_cache_mine.Base.Checked.{Checked, ok, out_of_bounds, ◌>>=◌}
use btc_multipool_cache_mine.Store.Outbox.{le_bytes}
use btc_multipool_cache_mine.Submit.Sha256.{sha256}
use btc_multipool_cache_mine.Normalize.Merkle.{compute_merkle_root_be}
use btc_multipool_cache_mine.Normalize.Coinbase.{CoinbaseParts, assemble_coinbase_tx}
use btc_multipool_cache_mine.Normalize.Normalizer.{RawJobInputs}
use btc_multipool_cache_mine.Adapters.StratumAdapter.{set_clean_jobs, ingest_job_with_policy}
use btc_multipool_cache_mine.Adapters.StratumRunner.{StratumRunner}

-- What the handler takes out of the parameters after the name of the job.
pub record NotifyParams : Type 0 where
  pub version : ℕ
  pub nbits : ℕ
  pub ntime : ℕ
  pub prevhash_hex : List ℕ
  pub coinb1_hex : List ℕ
  pub coinb2_hex : List ℕ
  pub merkle_branch_hex : List (List ℕ)
  pub clean : Bool

unfoldable pub hex_digit : ℕ → Checked ℕ
hex_digit c =
    if leb 48 c && leb c 57
    then ok (c - 48)
    else (if leb 97 c && leb c 102
        then ok (c - 87)
        else (if leb 65 c && leb c 70 then ok (c - 55) else out_of_bounds))

-- Whole pairs only.
unfoldable pub hex_to_bytes : List ℕ → Checked (List ℕ)
hex_to_bytes (a ∷ b ∷ rest) = do
  high ← hex_digit a
  low ← hex_digit b
  bytes ← hex_to_bytes rest
  ok ((high * 16 + low) ∷ bytes)
hex_to_bytes _ = ok []

-- Into an array of 32 zero bytes.
unfoldable pub hex_to_32 : List ℕ → Checked (List ℕ)
hex_to_32 text = do
  bytes ← hex_to_bytes (take 64 text)
  ok (bytes ++ replicate (32 - length bytes) 0)

unfoldable pub branch_entry : List ℕ → Checked (List ℕ)
branch_entry text = if ltb (length text) 64 then out_of_bounds else hex_to_bytes (take 64 text)

unfoldable pub branch_entries : List (List ℕ) → Checked (List (List ℕ))
branch_entries [] = ok []
branch_entries (text ∷ texts) = do
  entry ← branch_entry text
  entries ← branch_entries texts
  ok (entry ∷ entries)

unfoldable pub backwards : List ℕ → List ℕ
backwards [] = []
backwards (b ∷ bs) = backwards bs ++ b ∷ []

-- The root of the list that has the coinbase and then the branch.
unfoldable pub notify_root : StratumRunner → NotifyParams → Checked (List ℕ)
notify_root r p = do
  coinb1 ← hex_to_bytes p.coinb1_hex
  coinb2 ← hex_to_bytes p.coinb2_hex
  branch ← branch_entries p.merkle_branch_hex
  let parts : CoinbaseParts = record {
    prefix = coinb1;
    suffix = coinb2;
    has_witness = false;
    witness_commitment = replicate 32 0;
  }
  let coinbase = assemble_coinbase_tx parts r.extranonce1 (replicate r.extranonce2_size 0)
  ok (compute_merkle_root_be (backwards (sha256 (sha256 coinbase)) ∷ branch))

unfoldable pub notify_inputs :
    (List ℕ → ℕ) → List ℕ → StratumRunner → NotifyParams → Checked RawJobInputs
notify_inputs hash job_id r p = do
  prevhash ← hex_to_32 p.prevhash_hex
  root ← notify_root r p
  ok (record {
    source_id = 0;
    job = record {
      source_name = 115 ∷ 116 ∷ 114 ∷ 97 ∷ 116 ∷ 117 ∷ 109 ∷ [];
      work_id = hash job_id;
      version = u32 p.version;
      nbits = u32 p.nbits;
      ntime = u32 p.ntime;
    };
    prevhash_be = prevhash;
    merkle_root_be = root;
    header_first64 = le_bytes 4 (u32 p.version) ++ (prevhash ++ take 28 root);
    share_nbits = 0;
    vmask = 0;
    ntime_min = u32 p.ntime;
    ntime_max = u32 (u32 p.ntime + 2);
    extranonce2_size = r.extranonce2_size;
    clean_jobs = p.clean;
  })

-- The name of the job is kept even where the rest throws.
unfoldable pub on_notify :
    (List ℕ → ℕ) → Option (List ℕ) → Option NotifyParams → StratumRunner → Checked StratumRunner
on_notify hash none params r = ok r
on_notify hash (some job_id) none r = ok (record r { last_job_id = job_id })
on_notify hash (some job_id) (some p) r = do
  inputs ← notify_inputs hash job_id r p
  adapter ← ingest_job_with_policy inputs (set_clean_jobs p.clean r.adapter)
  ok (record r { last_job_id = job_id; adapter = adapter })
