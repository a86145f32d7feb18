-- ===== src/Submit/Gbt/Coinbase/Height.antt =====
-- `encodeBip34Height` of src/submit/gbt_submitter.cc: the push of a height, read back.
use btc_multipool_cache_mine.Base.{
  ℕ, zero, suc, ◌+◌, ◌*◌, ◌%◌, ◌^◌, ◌≤◌, ◌<◌, ◌≡◌, refl, ap, ◌∙◌, List, [], ◌∷◌, ◌++◌, append_assoc,
  some, arith, ne→==, length, AreBytes, u8, ◌>>>◌, bit_and,
}
use native.Mathlib.Decide.{dec_lt}
use native.Mathlib.Nat.{pow-suc}
use btc_multipool_cache_mine.Base.Bits.{and_mask}
use btc_multipool_cache_mine.Submit.Gbt.Hex.{
  hex_byte, bytes_to_hex, height_bytes, or_zero_byte, encode_bip34_height,
}
use btc_multipool_cache_mine.Submit.Gbt.Digits.{read_byte, read_byte-hex_byte}
use btc_multipool_cache_mine.Submit.Gbt.VarInt.{read_le}

abbrev pub le_number : List ℕ → ℕ
le_number [] = 0
le_number (b ∷ bs) = b + 256 * le_number bs

read_le-bytes_to_hex :
    (bs rest : List ℕ)
    → AreBytes bs
    → read_le (length bs) (bytes_to_hex bs ++ rest) ≡ some (le_number bs, rest)
unfolding read_le bytes_to_hex
read_le-bytes_to_hex [] rest a = refl
read_le-bytes_to_hex (b ∷ bs) rest a = rw (
  append_assoc (hex_byte b) (bytes_to_hex bs) rest,
  read_byte-hex_byte b (bytes_to_hex bs ++ rest) a.0,
  read_le-bytes_to_hex bs rest a.1,
)

record Holds (fuel height : ℕ) (bs : List ℕ) : Type 0 where
  bytes : AreBytes bs
  number : le_number bs ≡ height
  few : length bs ≤ fuel

height_bytes-Holds :
    (fuel height : ℕ) → height < 256 ^ fuel → Holds fuel height (height_bytes fuel height)
unfolding height_bytes
height_bytes-Holds zero height h = record { bytes = tt; number = omega arith; few = omega arith }
height_bytes-Holds (suc fuel) height h = elim (dec_lt 0 height) [
  | no zero_height ↦
      let e : height ≡ 0 = omega arith in
      rw e (record { bytes = tt; number = refl; few = omega arith })
  | yes positive ↦
      let rest = height_bytes-Holds fuel (height >>> 8) (omega (arith, pow-suc 256 fuel)) in
      let low : u8 (bit_and height 0xFF) ≡ height % 256 = omega (arith, and_mask 8 height) in
      rw (ne→== height 0 (λ e. absurd (omega arith)), low)
        (record {
          bytes = (omega arith, rest.bytes);
          number = omega (arith, rest.number);
          few = omega (arith, rest.few);
        })
]

or_zero_byte-Holds :
    (height : ℕ) (bs : List ℕ) → Holds 4 height bs → Holds 4 height (or_zero_byte bs)
unfolding or_zero_byte
or_zero_byte-Holds height [] v = record {
  bytes = (omega arith, tt);
  number = v.number;
  few = omega arith;
}
or_zero_byte-Holds height (b ∷ bs) v = v

pushed : (height : ℕ) → height < 2 ^ 32 → Holds 4 height (or_zero_byte (height_bytes 4 height))
pushed height h =
    or_zero_byte-Holds height (height_bytes 4 height) (height_bytes-Holds 4 height (omega arith))

nonempty : (bs : List ℕ) → 1 ≤ length (or_zero_byte bs)
unfolding or_zero_byte
nonempty [] = omega arith
nonempty (b ∷ bs) = omega arith

-- For a 32-bit height, the push is a byte from 1 to 4 followed by that many bytes, which read
-- back, the least significant first, as the height, and the text that follows is left.
pub encode_bip34_height-reads :
    (height : ℕ) (rest : List ℕ)
    → height < 2 ^ 32
    → (n : ℕ) × (text : List ℕ) × (1 ≤ n)
      × (n ≤ 4)
      × (read_byte (encode_bip34_height height ++ rest) ≡ some (n, text))
      × (read_le n text ≡ some (height, rest))
unfolding encode_bip34_height
encode_bip34_height-reads height rest h =
    let le = or_zero_byte (height_bytes 4 height) in
    let v = pushed height h in
    (
      length le,
      bytes_to_hex le ++ rest,
      nonempty (height_bytes 4 height),
      v.few,
      rw (append_assoc (hex_byte (length le)) (bytes_to_hex le) rest)
          (read_byte-hex_byte (length le) (bytes_to_hex le ++ rest) (omega (arith, v.few))),
      read_le-bytes_to_hex le rest v.bytes ∙ ap (λ n. some (n, rest)) v.number,
    )

-- The last byte of a script number carries its sign.
unfoldable pub last_byte : List ℕ → ℕ
last_byte [] = 0
last_byte (b ∷ []) = b
last_byte (b ∷ c ∷ bs) = last_byte (c ∷ bs)

last_byte-cons : (b : ℕ) (bs : List ℕ) → 0 < length bs → last_byte (b ∷ bs) ≡ last_byte bs
unfolding last_byte
last_byte-cons b [] h = absurd (omega arith)
last_byte-cons b (c ∷ bs) h = refl

alone :
    (fuel height : ℕ)
    → 128 ≤ height
    → (128 ≤ last_byte (height ∷ height_bytes fuel 0)) × (0 < length (height ∷ height_bytes fuel 0))
unfolding last_byte height_bytes
alone zero height h = (h, omega arith)
alone (suc fuel) height h = (h, omega arith)

last_byte-or_zero_byte : (bs : List ℕ) → 0 < length bs → last_byte (or_zero_byte bs) ≡ last_byte bs
unfolding or_zero_byte
last_byte-or_zero_byte [] h = absurd (omega arith)
last_byte-or_zero_byte (b ∷ bs) h = refl

last_byte-height_bytes :
    (fuel k height : ℕ)
    → k < fuel
    → 128 * 256 ^ k ≤ height
    → height < 256 ^ suc k
    → (128 ≤ last_byte (height_bytes fuel height)) × (0 < length (height_bytes fuel height))
unfolding height_bytes
last_byte-height_bytes zero k height hk lo hi = absurd (omega arith)
last_byte-height_bytes (suc fuel) zero height hk lo hi =
    let low : u8 (bit_and height 0xFF) ≡ height = omega (arith, and_mask 8 height) in
    let none_left : height >>> 8 ≡ 0 = omega arith in
    rw (ne→== height 0 (λ e. absurd (omega arith)), low, none_left)
      (alone fuel height (omega arith))
last_byte-height_bytes (suc fuel) (suc k) height hk lo hi =
    let more = pow-suc 256 k in
    let next = pow-suc 256 (suc k) in
    let rest =
      last_byte-height_bytes fuel k (height >>> 8) (omega arith) (omega arith) (omega arith) in
    rw
      (
        ne→== height 0 (λ e. absurd (omega arith)),
        last_byte-cons (u8 (bit_and height 0xFF)) (height_bytes fuel (height >>> 8)) rest.1,
      )
      (rest.0, omega arith)

-- For a height of k + 1 bytes, k below 4, whose top byte is 128 or more, the last byte of the push
-- is 128 or more, so that it is a negative script number.
pub encode_bip34_height_negative :
    (k height : ℕ)
    → k < 4
    → 128 * 256 ^ k ≤ height
    → height < 256 ^ suc k
    → 128 ≤ last_byte (or_zero_byte (height_bytes 4 height))
encode_bip34_height_negative k height hk lo hi =
    let top = last_byte-height_bytes 4 k height hk lo hi in
    omega (arith, top.0, last_byte-or_zero_byte (height_bytes 4 height) top.1)
