-- ===== src/Net/Base64/Decode.antt =====
-- Base64 of src/net/rpc_client.cc is read back by a decoder of RFC 4648.
use btc_multipool_cache_mine.Base.{
  ℕ, zero, suc, ◌+◌, ◌-◌, ◌*◌, ◌/◌, ◌%◌, ◌<◌, ◌≡◌, refl, ap, ◌∙◌, List, [], ◌∷◌, Option, none, some,
  Bool, true, false, ◌&&◌, not, Option-cases, inl, inr, arith, u32, ◌<<<◌, ◌>>>◌, if◌then◌else◌,
  leb, ◌==◌, get_or,
}
use btc_multipool_cache_mine.Base.Bits.{and_mask}
use btc_multipool_cache_mine.Net.Base64.{b64, sextet, emit, encode_loop}

-- The value of a character of the alphabet.
unfoldable pub value_of : ℕ → Option ℕ
value_of c =
    if leb 65 c && leb c 90
    then some (c - 65)
    else (if leb 97 c && leb c 122
        then some (c - 71)
        else (if leb 48 c && leb c 57
            then some (c + 4)
            else (if c == 43 then some 62 else (if c == 47 then some 63 else none))))

infixl 5 ◌>>=◌
abbrev ◌>>=◌ {ℓ κ} : {A : Type ℓ} {B : Type κ} → Option A → (A → Option B) → Option B
none >>= f = none
some a >>= f = f a

-- Four characters at a time; what follows a '=' is not read.
unfoldable pub last_two : ℕ → ℕ → ℕ → ℕ → Option (List ℕ) → Option (List ℕ)
last_two p q y z more =
    if y == 61
    then some ((p * 4 + q / 16) ∷ [])
    else (value_of y >>= (λ r.
        if z == 61
        then some ((p * 4 + q / 16) ∷ (q % 16 * 16 + r / 4) ∷ [])
        else (value_of z >>= (λ s.
            more
            >>= (λ m. some ((p * 4 + q / 16) ∷ (q % 16 * 16 + r / 4) ∷ (r % 4 * 64 + s) ∷ m))))))

unfoldable pub decode : List ℕ → Option (List ℕ)
decode [] = some []
decode (w ∷ x ∷ y ∷ z ∷ rest) =
    let more = decode rest in value_of w >>= (λ p. value_of x >>= (λ q. last_two p q y z more))
decode _ = none

-- The alphabet, looked through character by character.
abbrev pub char : ℕ → ℕ
char i = get_or b64 i 0

value_or : ℕ → ℕ
unfolding value_of
value_or c = elim (value_of c) [ none ↦ 64 | some v ↦ v ]

-- The reader knows the digit, and it is not the sign that fills up.
is_known : ℕ → Bool
is_known digit = (value_or (char digit) == digit) && not (char digit == 61)

digits_known : ℕ → Bool
digits_known zero = true
digits_known (suc digit) = if is_known digit then digits_known digit else false

digits_known-below :
    (count digit : ℕ) → digit < count → digits_known count ≡ true → is_known digit ≡ true
unfolding digits_known
digits_known-below zero digit inside known = absurd (omega arith)
digits_known-below (suc last) digit inside known = ground (arith, digits_known-below last digit)

alphabet : digits_known 64 ≡ true
unfolding digits_known is_known value_or
alphabet = refl

known : (i : ℕ) → i < 64 → ((value_or (char i) == i) && not (char i == 61)) ≡ true
unfolding is_known
known i h = digits_known-below 64 i h alphabet

pub value_of-char : (i : ℕ) → i < 64 → value_of (char i) ≡ some i
unfolding value_or
value_of-char i h = elim (Option-cases (value_of (char i))) [
  | inl e ↦ absurd (ground (arith, known i h))
  | inr (v, e) ↦ ground (arith, known i h)
]

pub char-ne : (i : ℕ) → i < 64 → (char i == 61) ≡ false
char-ne i h = ground (arith, known i h)

sextet-char : (v i : ℕ) → v % 64 ≡ i → sextet v ≡ char i
unfolding sextet
sextet-char v i e = ap char (and_mask 6 v ∙ e)

-- Three bytes from an empty buffer, and the last one or two.
module _ (val a : ℕ) (ha : a < 256) where
  abbrev pub v1 : ℕ
  v1 = u32 (u32 (val <<< 8) + a)

  pub encode_one : encode_loop val 0 (a ∷ []) ≡ char (a / 4) ∷ char (a % 4 * 16) ∷ []
  unfolding encode_loop emit
  encode_one = rw (
    sextet-char (v1 >>> 2) (a / 4) (omega arith),
    sextet-char (u32 (v1 <<< 8) >>> 4) (a % 4 * 16) (omega arith),
  )

  module _ (b : ℕ) (hb : b < 256) where
    abbrev pub v2 : ℕ
    v2 = u32 (u32 (v1 <<< 8) + b)

    pub encode_two :
        encode_loop val 0 (a ∷ b ∷ [])
        ≡ char (a / 4) ∷ char (a % 4 * 16 + b / 16) ∷ char (b % 16 * 4) ∷ []
    unfolding encode_loop emit
    encode_two = rw (
      sextet-char (v1 >>> 2) (a / 4) (omega arith),
      sextet-char (v2 >>> 4) (a % 4 * 16 + b / 16) (omega arith),
      sextet-char (u32 (v2 <<< 8) >>> 6) (b % 16 * 4) (omega arith),
    )

    module _ (c : ℕ) (hc : c < 256) (rest : List ℕ) where
      abbrev pub v3 : ℕ
      v3 = u32 (u32 (v2 <<< 8) + c)

      pub encode_three :
          encode_loop val 0 (a ∷ b ∷ c ∷ rest)
          ≡ char (a / 4)
            ∷ char (a % 4 * 16 + b / 16)
            ∷ char (b % 16 * 4 + c / 64)
            ∷ char (c % 64)
            ∷ encode_loop v3 0 rest
      unfolding encode_loop emit
      encode_three = rw (
        sextet-char (v1 >>> 2) (a / 4) (omega arith),
        sextet-char (v2 >>> 4) (a % 4 * 16 + b / 16) (omega arith),
        sextet-char (v3 >>> 6) (b % 16 * 4 + c / 64) (omega arith),
        sextet-char (v3 >>> 0) (c % 64) (omega arith),
      )
