-- ===== src/Submit/Sha256.antt =====
-- src/submit/cpu_verify.cc, SHA-256: the compression function and the byte-at-a-time context.
-- Arrays are lists. `init` leaves `ctx.data` uninitialised: what it holds is an argument.
pub mod Transform
pub mod Spec
pub mod Buffer
pub mod Final
pub mod Correct
pub mod Standard
pub mod Digest
use btc_multipool_cache_mine.Base.{
  ℕ, zero, suc, ◌+◌, ◌-◌, ◌*◌, ◌^◌, List, [], ◌∷◌, ◌++◌, u8, u64, ◌>>>◌, length, set, drop,
  replicate, if◌then◌else◌, ltb, ◌==◌,
}
use Transform.{transform, digest}

pub record Sha256Ctx : Type 0 where
  pub bitlen : ℕ
  pub state : List ℕ
  pub buf : List ℕ
  pub datalen : ℕ

abbrev pub initial_state : List ℕ
initial_state =
    0x6a09e667 ∷ 0xbb67ae85 ∷ 0x3c6ef372 ∷ 0xa54ff53a ∷ 0x510e527f ∷ 0x9b05688c ∷ 0x1f83d9ab
    ∷ 0x5be0cd19 ∷ []

unfoldable pub sha256_init : List ℕ → Sha256Ctx
sha256_init garbage = record { bitlen = 0; state = initial_state; buf = garbage; datalen = 0 }

-- One round of the loop of `sha256_update`.
unfoldable pub update_byte : Sha256Ctx → ℕ → Sha256Ctx
update_byte ctx b =
    let stored = set ctx.buf ctx.datalen b in
    if ctx.datalen + 1 == 64
    then record {
      bitlen = u64 (ctx.bitlen + 512);
      state = transform ctx.state stored;
      buf = stored;
      datalen = 0;
    }
    else record ctx { buf = stored; datalen = ctx.datalen + 1 }

unfoldable pub sha256_update : Sha256Ctx → List ℕ → Sha256Ctx
sha256_update ctx [] = ctx
sha256_update ctx (b ∷ bs) = sha256_update (update_byte ctx b) bs

-- `while (i < end) data[i++] = 0`, with `end - i` rounds left.
unfoldable pub fill_zero : ℕ → ℕ → List ℕ → List ℕ
fill_zero zero i buf = buf
fill_zero (suc left) i buf = fill_zero left (i + 1) (set buf i 0)

-- The stores to `data[63]` down to `data[56]`.
unfoldable pub put_bitlen : List ℕ → ℕ → List ℕ
put_bitlen buf bitlen =
    set
      (set
        (set
          (set
            (set (set (set (set buf 63 (u8 bitlen)) 62 (u8 (bitlen >>> 8))) 61 (u8 (bitlen >>> 16)))
              60 (u8 (bitlen >>> 24)))
            59 (u8 (bitlen >>> 32)))
          58 (u8 (bitlen >>> 48)))
        57 (u8 (bitlen >>> 56)))
      56 0

-- `memset(buf, 0, n)`.
unfoldable pub clear_front : ℕ → List ℕ → List ℕ
clear_front n buf = replicate n 0 ++ drop n buf

-- The padding of `sha256_final`, up to the store of the length.
unfoldable pub pad_state : Sha256Ctx → Sha256Ctx
pad_state ctx =
    let marked = set ctx.buf ctx.datalen 0x80 in
    if ltb ctx.datalen 56
    then record ctx { buf = fill_zero (56 - (ctx.datalen + 1)) (ctx.datalen + 1) marked }
    else (let full = fill_zero (64 - (ctx.datalen + 1)) (ctx.datalen + 1) marked in
        record ctx { state = transform ctx.state full; buf = clear_front 56 full })

unfoldable pub sha256_final : Sha256Ctx → List ℕ
sha256_final ctx =
    let padded = pad_state ctx in
    digest (transform padded.state (put_bitlen padded.buf (u64 (ctx.bitlen + ctx.datalen * 8))))

-- `sha256` on a stack whose 64 bytes under `ctx.data` hold `garbage`.
unfoldable pub sha256_over : List ℕ → List ℕ → List ℕ
sha256_over garbage bytes = sha256_final (sha256_update (sha256_init garbage) bytes)

unfoldable pub sha256 : List ℕ → List ℕ
unfolding sha256_over
sha256 bytes = sha256_over (replicate 64 0) bytes

unfoldable pub sha256d : List ℕ → List ℕ
sha256d bytes = sha256 (sha256 bytes)
