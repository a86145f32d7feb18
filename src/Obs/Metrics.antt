-- ===== src/Obs/Metrics.antt =====
-- src/obs/metrics.cc: the registry of counters and gauges, and which requests the server answers with
-- them. A gauge is kept as its 64 bits. The server's socket is not modelled.
pub mod Counts
use btc_multipool_cache_mine.Base.{
  ℕ, ◌+◌, List, [], ◌∷◌, ◌++◌, Option, none, some, Bool, true, false, ◌||◌, if◌then◌else◌, u64,
}
use btc_multipool_cache_mine.Base.Text.{same_text}
use btc_multipool_cache_mine.Net.RpcClient.{strip, split_at}

pub record MetricsRegistry : Type 0 where
  pub counters : List (List ℕ × ℕ)
  pub gauges : List (List ℕ × ℕ)

-- `counters_[name] += delta`.
unfoldable pub add_to : List ℕ → ℕ → List (List ℕ × ℕ) → List (List ℕ × ℕ)
add_to name delta [] = (name, u64 delta) ∷ []
add_to name delta ((k, v) ∷ t) =
    if same_text k name then (k, u64 (v + delta)) ∷ t else (k, v) ∷ add_to name delta t

-- `gauges_[name] = value`.
unfoldable pub put_at : List ℕ → ℕ → List (List ℕ × ℕ) → List (List ℕ × ℕ)
put_at name value [] = (name, value) ∷ []
put_at name value ((k, v) ∷ t) =
    if same_text k name then (k, value) ∷ t else (k, v) ∷ put_at name value t

unfoldable pub increment : List ℕ → ℕ → MetricsRegistry → MetricsRegistry
increment name delta r = record r { counters = add_to name delta r.counters }

unfoldable pub set_gauge : List ℕ → ℕ → MetricsRegistry → MetricsRegistry
set_gauge name value r = record r { gauges = put_at name value r.gauges }

-- "GET ", "/metrics" and "/".
abbrev pub get_space : List ℕ
get_space = 71 ∷ 69 ∷ 84 ∷ 32 ∷ []

abbrev pub metrics_path : List ℕ
metrics_path = 47 ∷ 109 ∷ 101 ∷ 116 ∷ 114 ∷ 105 ∷ 99 ∷ 115 ∷ []

abbrev pub root_path : List ℕ
root_path = 47 ∷ []

abbrev pub path_of : Option (List ℕ × List ℕ) → List ℕ
path_of none = root_path
path_of (some (path, behind)) = path

-- Whether a request is answered with the metrics; the first space is that of "GET ".
unfoldable pub is_served : List ℕ → Bool
is_served req = elim (strip get_space req) [
  | none ↦ false
  | some rest ↦
      let path = path_of (split_at (32 ∷ []) rest) in
      same_text path metrics_path || same_text path root_path
]
