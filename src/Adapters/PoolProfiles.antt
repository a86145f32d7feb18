-- ===== src/Adapters/PoolProfiles.antt =====
-- src/adapters/pool_profiles.cc: the user name and the password that a pool is given.
use btc_multipool_cache_mine.Base.{ℕ, List, [], ◌∷◌, ◌++◌}

pub data PoolProfile : Type 0 where
  generic viabtc f2pool : PoolProfile

-- A '.' and the worker's name, where there is one.
unfoldable pub with_worker : List ℕ → List ℕ → List ℕ
with_worker user [] = user
with_worker user (c ∷ cs) = (user ++ (46 ∷ [])) ++ (c ∷ cs)

-- "x" for an empty hint.
unfoldable pub or_x : List ℕ → List ℕ
or_x [] = 120 ∷ []
or_x (c ∷ cs) = c ∷ cs

-- No profile changes the pair.
unfoldable pub format_stratum_credentials : PoolProfile → List ℕ → List ℕ → List ℕ → List ℕ × List ℕ
format_stratum_credentials profile wallet_address worker_name password_hint =
    (with_worker wallet_address worker_name, or_x password_hint)
