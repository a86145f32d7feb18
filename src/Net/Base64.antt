-- ===== src/Net/Base64.antt =====
-- src/net/rpc_client.cc, the "naive base64" of the credentials. `val` is an `unsigned int`; the
-- signed `valb` is kept as `bits`, which is `valb + 6` and never below 0.
pub mod Decode
pub mod Roundtrip
use btc_multipool_cache_mine.Base.{
  ℕ, zero, suc, ◌+◌, ◌-◌, ◌%◌, bit_and, List, [], ◌∷◌, ◌++◌, if◌then◌else◌, ltb, ◌==◌, u32, ◌<<<◌,
  ◌>>>◌, get_or, length, replicate,
}

abbrev pub b64 : List ℕ
b64 =
    65 ∷ 66 ∷ 67 ∷ 68 ∷ 69 ∷ 70 ∷ 71 ∷ 72 ∷ 73 ∷ 74 ∷ 75 ∷ 76 ∷ 77 ∷ 78 ∷ 79 ∷ 80 ∷ 81 ∷ 82 ∷ 83
    ∷ 84 ∷ 85 ∷ 86 ∷ 87 ∷ 88 ∷ 89 ∷ 90 ∷ 97 ∷ 98 ∷ 99 ∷ 100 ∷ 101 ∷ 102 ∷ 103 ∷ 104 ∷ 105 ∷ 106
    ∷ 107 ∷ 108 ∷ 109 ∷ 110 ∷ 111 ∷ 112 ∷ 113 ∷ 114 ∷ 115 ∷ 116 ∷ 117 ∷ 118 ∷ 119 ∷ 120 ∷ 121 ∷ 122
    ∷ 48 ∷ 49 ∷ 50 ∷ 51 ∷ 52 ∷ 53 ∷ 54 ∷ 55 ∷ 56 ∷ 57 ∷ 43 ∷ 47 ∷ []

-- `b64[v & 0x3F]`.
unfoldable pub sextet : ℕ → ℕ
sextet v = get_or b64 (bit_and v 0x3F) 0

-- `while (valb >= 0)`, on fuel: `bits / 6` rounds.
unfoldable pub emit : ℕ → ℕ → ℕ → List ℕ
emit zero val bits = []
emit (suc fuel) val bits =
    let more = sextet (val >>> (bits - 6)) ∷ emit fuel val (bits - 6) in
    if ltb bits 6 then [] else more

-- `while (enc.size() % 4) enc.push_back('=')`.
unfoldable pub padding : ℕ → List ℕ
padding n = replicate ((4 - n % 4) % 4) 61

unfoldable pub encode_loop : ℕ → ℕ → List ℕ → List ℕ
encode_loop val bits [] = if ltb 0 bits then sextet (u32 (val <<< 8) >>> (bits + 2)) ∷ [] else []
encode_loop val bits (c ∷ up) =
    let next = u32 (u32 (val <<< 8) + c) in
    emit 2 next (bits + 8) ++ encode_loop next ((bits + 8) % 6) up

unfoldable pub base64 : List ℕ → List ℕ
base64 up = let enc = encode_loop 0 0 up in enc ++ padding (length enc)
