-- ===== src/Net/Base64/Roundtrip.antt =====
-- Base64 of src/net/rpc_client.cc: what the decoder makes of it.
use btc_multipool_cache_mine.Base.{
  ℕ, suc, ◌+◌, ◌*◌, ◌/◌, ◌%◌, ◌<◌, ◌≡◌, refl, ap, ap₂, List, [], ◌∷◌, ◌++◌, some, arith, length,
  replicate, AreBytes,
}
use btc_multipool_cache_mine.Net.Base64.{padding, encode_loop, base64}
use btc_multipool_cache_mine.Net.Base64.Decode.{
  char, value_of-char, char-ne, last_two, decode, v3, encode_one, encode_two, encode_three,
}

padding_four : (n : ℕ) → padding (suc (suc (suc (suc n)))) ≡ padding n
unfolding padding
padding_four n = ap (λ k. replicate k 61) (omega arith)

decode_one :
    (a : ℕ) → a < 256 → decode (char (a / 4) ∷ char (a % 4 * 16) ∷ 61 ∷ 61 ∷ []) ≡ some (a ∷ [])
unfolding decode last_two
decode_one a h =
    rw (value_of-char (a / 4) (omega arith), value_of-char (a % 4 * 16) (omega arith))
      (ap (λ n. some (n ∷ [])) (omega arith))

decode_two :
    (a b : ℕ)
    → a < 256
    → b < 256
    → decode (char (a / 4) ∷ char (a % 4 * 16 + b / 16) ∷ char (b % 16 * 4) ∷ 61 ∷ [])
      ≡ some (a ∷ b ∷ [])
unfolding decode last_two
decode_two a b h k =
    rw
      (
        value_of-char (a / 4) (omega arith),
        value_of-char (a % 4 * 16 + b / 16) (omega arith),
        char-ne (b % 16 * 4) (omega arith),
        value_of-char (b % 16 * 4) (omega arith),
      )
      (ap₂ (λ m n. some (m ∷ n ∷ [])) (omega arith) (omega arith))

decode_three :
    (a b c : ℕ) (chars rest : List ℕ)
    → a < 256
    → b < 256
    → c < 256
    → decode chars ≡ some rest
    → decode (
        char (a / 4)
        ∷ char (a % 4 * 16 + b / 16)
        ∷ char (b % 16 * 4 + c / 64)
        ∷ char (c % 64)
        ∷ chars)
      ≡ some (a ∷ b ∷ c ∷ rest)
unfolding decode last_two
decode_three a b c chars rest h k l e =
    rw
      (
        value_of-char (a / 4) (omega arith),
        value_of-char (a % 4 * 16 + b / 16) (omega arith),
        char-ne (b % 16 * 4 + c / 64) (omega arith),
        value_of-char (b % 16 * 4 + c / 64) (omega arith),
        char-ne (c % 64) (omega arith),
        value_of-char (c % 64) (omega arith),
        e,
      )
      (ap some (ground arith))

-- From an empty buffer, whatever bits are left in `val` above it.
decode-encode_loop :
    (val : ℕ) (up : List ℕ)
    → AreBytes up
    → decode (encode_loop val 0 up ++ padding (length (encode_loop val 0 up))) ≡ some up
decode-encode_loop val [] h = unfold encode_loop decode padding in refl
decode-encode_loop val (a ∷ []) h = rw (encode_one val a h.0) (unfold padding in decode_one a h.0)
decode-encode_loop val (a ∷ b ∷ []) h =
    rw (encode_two val a h.0 b h.1.0) (unfold padding in decode_two a b h.0 h.1.0)
decode-encode_loop val (a ∷ b ∷ c ∷ up) h =
    let enc : List ℕ = encode_loop (v3 val a h.0 b h.1.0 c h.1.1.0 up) 0 up in
    rw (encode_three val a h.0 b h.1.0 c h.1.1.0 up, padding_four (length enc))
      (decode_three a b c (enc ++ padding (length enc)) up h.0 h.1.0 h.1.1.0
        (decode-encode_loop (v3 val a h.0 b h.1.0 c h.1.1.0 up) up h.1.1.1))

-- A reader of base 64 gets every string of bytes back from its encoding.
pub decode-base64 : (up : List ℕ) → AreBytes up → decode (base64 up) ≡ some up
unfolding base64
decode-base64 up h = decode-encode_loop 0 up h
