-- ===== src/Submit/Gbt/VarInt.antt =====
-- `encodeVarIntHex` of src/submit/gbt_submitter.cc against the reader of Bitcoin's CompactSize.
use btc_multipool_cache_mine.Base.{
  ℕ, zero, suc, ◌+◌, ◌*◌, ◌/◌, ◌%◌, ◌^◌, ◌<◌, ◌≡◌, refl, ap, sym, ◌∙◌, List, [], ◌++◌, Option, none,
  some, arith, if◌then◌else◌, ltb, ◌==◌, bit_and, append_assoc, ◌>>>◌, u8, lt→ltb, le→ltb, le→leb,
  lt→leb,
}
use native.Mathlib.Decide.{dec_lt}
use native.Mathlib.Nat.{pow-suc, div-div-eq-div-mul}
use btc_multipool_cache_mine.Base.Bits.{and_mask}
use btc_multipool_cache_mine.Submit.Gbt.Hex.{hex_byte, emit_le, encode_var_int_hex}
use btc_multipool_cache_mine.Submit.Gbt.Digits.{read_byte, read_byte-hex_byte}

infixl 5 ◌>>=◌
abbrev ◌>>=◌ {ℓ κ} : {A : Type ℓ} {B : Type κ} → Option A → (A → Option B) → Option B
none >>= f = none
some a >>= f = f a

-- A number of `k` bytes, the least significant first.
unfoldable pub read_le : ℕ → List ℕ → Option (ℕ × List ℕ)
read_le zero text = some (0, text)
read_le (suc k) text = do (b, r) ← read_byte text; (n, r') ← read_le k r; some (b + 256 * n, r')

-- CompactSize: a byte below 0xfd is the number, and the others tell how many bytes follow.
unfoldable pub read_wide : ℕ → List ℕ → Option (ℕ × List ℕ)
read_wide b r =
    if ltb b 0xfd
    then some (b, r)
    else (if b == 0xfd then read_le 2 r else (if b == 0xfe then read_le 4 r else read_le 8 r))

unfoldable pub read_compact_size : List ℕ → Option (ℕ × List ℕ)
read_compact_size text = do (b, r) ← read_byte text; read_wide b r

next_shift : (i : ℕ) → 2 ^ (8 * (i + 1)) ≡ 2 ^ (8 * i) * 256
next_shift i =
    let e : 8 * (i + 1) ≡ suc (suc (suc (suc (suc (suc (suc (suc (8 * i)))))))) = omega arith in
    rw
      (
        e,
        pow-suc 2 (suc (suc (suc (suc (suc (suc (suc (8 * i)))))))),
        pow-suc 2 (suc (suc (suc (suc (suc (suc (8 * i))))))),
        pow-suc 2 (suc (suc (suc (suc (suc (8 * i)))))),
        pow-suc 2 (suc (suc (suc (suc (8 * i))))),
        pow-suc 2 (suc (suc (suc (8 * i)))),
        pow-suc 2 (suc (suc (8 * i))),
        pow-suc 2 (suc (8 * i)),
        pow-suc 2 (8 * i),
      )
      (omega arith)

read_le-emit_le :
    (k i v x : ℕ) (rest : List ℕ)
    → x ≡ v >>> (8 * i)
    → x < 256 ^ k
    → read_le k (emit_le k i v ++ rest) ≡ some (x, rest)
unfolding emit_le read_le
read_le-emit_le zero i v x rest e h = let e' : x ≡ 0 = omega arith in rw e' refl
read_le-emit_le (suc k) i v x rest e h =
    let low : u8 (bit_and (v >>> (8 * i)) 0xFF) ≡ x % 256 =
      rw (sym e) (omega (arith, and_mask 8 x)) in
    let high : x / 256 ≡ v >>> (8 * (i + 1)) =
      rw e (div-div-eq-div-mul v (2 ^ (8 * i)) 256 ∙ ap (λ p. v / p) (sym (next_shift i))) in
    let whole : x % 256 + 256 * (x / 256) ≡ x = omega arith in
    rw (
      low,
      append_assoc (hex_byte (x % 256)) (emit_le k (i + 1) v) rest,
      read_byte-hex_byte (x % 256) (emit_le k (i + 1) v ++ rest) (omega arith),
      read_le-emit_le k (i + 1) v (x / 256) rest high (omega (arith, pow-suc 256 k)),
      whole,
    )

first_byte :
    (b : ℕ) (text rest : List ℕ)
    → b < 256
    → read_compact_size ((hex_byte b ++ text) ++ rest) ≡ read_wide b (text ++ rest)
unfolding read_compact_size
first_byte b text rest h =
    rw (append_assoc (hex_byte b) text rest, read_byte-hex_byte b (text ++ rest) h)

one_byte : (v : ℕ) → v < 256 → emit_le 1 0 v ≡ hex_byte v ++ []
unfolding emit_le
one_byte v h =
    let low : u8 (bit_and (v >>> (8 * 0)) 0xFF) ≡ v = omega (arith, and_mask 8 (v >>> (8 * 0))) in
    rw low

-- The three longer forms.
marked :
    (b k v : ℕ) (rest : List ℕ)
    → b < 256
    → v < 256 ^ k
    → read_wide b (emit_le k 0 v ++ rest) ≡ read_le k (emit_le k 0 v ++ rest)
    → read_compact_size ((hex_byte b ++ emit_le k 0 v) ++ rest) ≡ some (v, rest)
marked b k v rest hb h same =
    first_byte b (emit_le k 0 v) rest hb ∙ same ∙ read_le-emit_le k 0 v v rest (omega arith) h

-- Every number below 2 ^ 64 is read back from its variable-length encoding by a reader of
-- Bitcoin's CompactSize, and the text that follows is left.
pub read_compact_size-encode_var_int_hex :
    (v : ℕ) (rest : List ℕ)
    → v < 2 ^ 64
    → read_compact_size (encode_var_int_hex v ++ rest) ≡ some (v, rest)
unfolding encode_var_int_hex read_wide hex_byte
read_compact_size-encode_var_int_hex v rest h = elim (dec_lt v 0xfd) [
  | yes byte ↦
      rw (lt→ltb v 0xfd byte, one_byte v (omega arith))
        (first_byte v [] rest (omega arith) ∙ rw (lt→ltb v 0xfd byte))
  | no wide ↦ elim (dec_lt 0xffff v) [
    | no two ↦
        rw (le→ltb v 0xfd (omega arith), le→leb v 0xffff (omega arith))
          (marked 0xfd 2 v rest (omega arith) (omega arith) refl)
    | yes more ↦ elim (dec_lt 0xffffffff v) [
      | no four ↦
          rw (le→ltb v 0xfd (omega arith), lt→leb v 0xffff more, le→leb v 0xffffffff (omega arith))
            (marked 0xfe 4 v rest (omega arith) (omega arith) refl)
      | yes eight ↦
          rw (le→ltb v 0xfd (omega arith), lt→leb v 0xffff more, lt→leb v 0xffffffff eight)
            (marked 0xff 8 v rest (omega arith) (omega arith) refl)
    ]
  ]
]
