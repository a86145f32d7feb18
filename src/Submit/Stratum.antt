-- ===== src/Submit/Stratum.antt =====
-- src/submit/stratum_submitter.h: a share as hexadecimal fields. The runner that sends it is an
-- argument, none where the pointer is null.
use btc_multipool_cache_mine.Base.{ℕ, List, Option, none, some, Bool, false, drop, take}
use btc_multipool_cache_mine.Submit.Gbt.Hex.{bytes_to_hex}

-- `submitShare` of the runner: the second extra nonce, the time and the nonce.
abbrev pub SubmitShare : Type 0
SubmitShare = List ℕ → List ℕ → List ℕ → Bool

unfoldable pub submit_share_hex : Option SubmitShare → List ℕ → List ℕ → List ℕ → Bool
submit_share_hex none extranonce2_hex ntime_hex nonce_hex = false
submit_share_hex (some submit_share) extranonce2_hex ntime_hex nonce_hex =
    submit_share extranonce2_hex ntime_hex nonce_hex

-- The time is at bytes 68 to 71 of the header, the nonce at 76 to 79.
unfoldable pub submit_from_header : Option SubmitShare → List ℕ → List ℕ → Bool
submit_from_header none header80_be extranonce2_hex = false
submit_from_header (some submit_share) header80_be extranonce2_hex =
    let ntime_hex = bytes_to_hex (take 4 (drop 68 header80_be)) in
    let nonce_hex = bytes_to_hex (take 4 (drop 76 header80_be)) in
    submit_share extranonce2_hex ntime_hex nonce_hex
