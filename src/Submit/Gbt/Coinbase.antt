-- ===== src/Submit/Gbt/Coinbase.antt =====
-- The coinbase transactions that src/submit/gbt_submitter.cc builds itself, as hexadecimal text.
pub mod Height
use btc_multipool_cache_mine.Base.{
  ℕ, zero, suc, ◌*◌, ◌/◌, List, [], ◌∷◌, ◌++◌, Option, none, some, if◌then◌else◌, ltb, ◌==◌, length,
  replicate, get_or, ◌%◌,
}
use btc_multipool_cache_mine.Submit.Gbt.Hex.{
  k_hex, hex_byte, bytes_to_hex, emit_le, encode_var_int_hex, encode_bip34_height,
}

-- A number in base 16 without leading zeros, on fuel, and padded to two digits.
unfoldable pub hex_digits : ℕ → ℕ → List ℕ
hex_digits zero n = []
hex_digits (suc fuel) n =
    let more = hex_digits fuel (n / 16) in
    if ltb n 16 then get_or k_hex n 0 ∷ [] else more ++ get_or k_hex (n % 16) 0 ∷ []

unfoldable pub hex_int : ℕ → List ℕ
hex_int n = if ltb n 16 then 48 ∷ hex_digits 16 n else hex_digits 16 n

-- "01000000", the version; "ffffffff"; "0000000000000000"; and "00000000".
abbrev pub version_hex : List ℕ
version_hex = 48 ∷ 49 ∷ 48 ∷ 48 ∷ 48 ∷ 48 ∷ 48 ∷ 48 ∷ []

abbrev pub ones_hex : List ℕ
ones_hex = replicate 8 102

abbrev pub zeros_hex : ℕ → List ℕ
zeros_hex n = replicate n 48

-- "aa21a9ed".
abbrev pub tag_hex : List ℕ
tag_hex = 97 ∷ 97 ∷ 50 ∷ 49 ∷ 97 ∷ 57 ∷ 101 ∷ 100 ∷ []

-- A text behind its length in bytes.
unfoldable pub with_length : List ℕ → List ℕ
with_length text = encode_var_int_hex (length text / 2) ++ text

-- "6a26" and "6a24", the tag, and the commitment.
unfoldable pub minimal_script : List ℕ → List ℕ
minimal_script commitment32_hex = 54 ∷ 97 ∷ 50 ∷ 54 ∷ (tag_hex ++ commitment32_hex)

unfoldable pub commitment_script : List ℕ → List ℕ
commitment_script commitment32_hex = 54 ∷ 97 ∷ 50 ∷ 52 ∷ (tag_hex ++ commitment32_hex)

unfoldable pub build_minimal_witness_commitment_coinbase : ℕ → List ℕ → Option (List ℕ)
build_minimal_witness_commitment_coinbase height_le commitment32_hex =
    if length commitment32_hex == 64
    then some (
        version_hex
        ++ encode_var_int_hex 1
        ++ zeros_hex 64
        ++ ones_hex
        ++ with_length (encode_bip34_height height_le)
        ++ ones_hex
        ++ encode_var_int_hex 1
        ++ zeros_hex 16
        ++ with_length (minimal_script commitment32_hex)
        ++ zeros_hex 8)
    else none

unfoldable pub signature_script : ℕ → List ℕ → List ℕ
signature_script height_le [] = encode_bip34_height height_le
signature_script height_le (c ∷ cs) =
    encode_bip34_height height_le ++ (hex_int (length (c ∷ cs) / 2) ++ (c ∷ cs))

unfoldable pub build_coinbase_tx : ℕ → List ℕ → ℕ → List ℕ → List ℕ → Option (List ℕ)
build_coinbase_tx height_le payout_script_hex value_sat commitment32_hex extra_sig_push_hex =
    if length commitment32_hex == 64
    then some (
        version_hex
        ++ encode_var_int_hex 1
        ++ zeros_hex 64
        ++ ones_hex
        ++ with_length (signature_script height_le extra_sig_push_hex)
        ++ ones_hex
        ++ encode_var_int_hex 2
        ++ emit_le 8 0 value_sat
        ++ with_length payout_script_hex
        ++ zeros_hex 16
        ++ with_length (commitment_script commitment32_hex)
        ++ zeros_hex 8)
    else none
