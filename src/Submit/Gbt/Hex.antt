-- ===== src/Submit/Gbt/Hex.antt =====
-- The encodings of src/submit/gbt_submitter.cc: bytes, variable-length integers and heights in
-- hexadecimal.
use btc_multipool_cache_mine.Base.{
  ℕ, zero, suc, ◌+◌, ◌*◌, bit_and, List, [], ◌∷◌, ◌++◌, if◌then◌else◌, ltb, leb, ◌==◌, ◌>>>◌, u8,
  get_or, length,
}

-- "0123456789abcdef".
abbrev pub k_hex : List ℕ
k_hex = 48 ∷ 49 ∷ 50 ∷ 51 ∷ 52 ∷ 53 ∷ 54 ∷ 55 ∷ 56 ∷ 57 ∷ 97 ∷ 98 ∷ 99 ∷ 100 ∷ 101 ∷ 102 ∷ []

unfoldable pub hex_byte : ℕ → List ℕ
hex_byte b = get_or k_hex (bit_and (b >>> 4) 0xF) 0 ∷ get_or k_hex (bit_and b 0xF) 0 ∷ []

-- `bytesToHex`, and `leHexFromHeaderBE` on the 80 bytes of a header.
unfoldable pub bytes_to_hex : List ℕ → List ℕ
bytes_to_hex [] = []
bytes_to_hex (b ∷ bs) = hex_byte b ++ bytes_to_hex bs

-- `emitLE`, from byte `i`, with the bytes that are left.
unfoldable pub emit_le : ℕ → ℕ → ℕ → List ℕ
emit_le zero i v = []
emit_le (suc left) i v = hex_byte (u8 (bit_and (v >>> (8 * i)) 0xFF)) ++ emit_le left (i + 1) v

-- 'f' followed by 'd', 'e' and 'f'.
unfoldable pub encode_var_int_hex : ℕ → List ℕ
encode_var_int_hex v =
    if ltb v 0xfd
    then emit_le 1 0 v
    else (if leb v 0xffff
        then 102 ∷ 100 ∷ emit_le 2 0 v
        else (if leb v 0xffffffff then 102 ∷ 101 ∷ emit_le 4 0 v else 102 ∷ 102 ∷ emit_le 8 0 v))

-- The bytes of a height, the least significant first, without leading zeros. The loop shifts a
-- 32-bit number by a byte, so four rounds are enough.
unfoldable pub height_bytes : ℕ → ℕ → List ℕ
height_bytes zero height = []
height_bytes (suc fuel) height =
    let rest = height_bytes fuel (height >>> 8) in
    if height == 0 then [] else u8 (bit_and height 0xFF) ∷ rest

unfoldable pub or_zero_byte : List ℕ → List ℕ
or_zero_byte [] = 0 ∷ []
or_zero_byte (b ∷ bs) = b ∷ bs

-- `std::setw(2)` in base 16 pads with a zero; the numbers here are below 256.
unfoldable pub encode_bip34_height : ℕ → List ℕ
encode_bip34_height height =
    let le = or_zero_byte (height_bytes 4 height) in hex_byte (length le) ++ bytes_to_hex le
