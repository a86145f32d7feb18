-- ===== src/Net/Send.antt =====
-- The loop of `sendJson` in src/net/stratum_client.cc and of `httpPostJson` in src/net/rpc_client.cc
-- that sends a text piece by piece. The socket is an argument: for the number of the call and the
-- bytes that are left, how many it took, `none` where its answer is not positive.
use btc_multipool_cache_mine.Base.{
  ℕ, zero, suc, ◌+◌, ◌≤◌, ◌≡◌, refl, List, [], ◌∷◌, ◌++◌, Option, none, some, Bool, true, false,
  arith, ltb, if◌then◌else◌, length, take, drop, le→ltb, length-drop, take-append-drop,
}
use btc_multipool_cache_mine.Base.Checked.{Checked, ok, out_of_bounds, ◌>>=◌}

abbrev pub Socket : Type 0
Socket = ℕ → List ℕ → Option ℕ

-- Whether all was sent, and what went out. An answer above `remaining` would run past the text.
unfoldable pub send_all : ℕ → Socket → ℕ → List ℕ → Checked (Bool × List ℕ)
send_all fuel sock call [] = ok (true, [])
send_all zero sock call (b ∷ bs) = ok (false, [])
send_all (suc fuel) sock call (b ∷ bs) = elim (sock call (b ∷ bs)) [
  | none ↦ ok (false, [])
  | some n ↦
      let more = send_all fuel sock (call + 1) (drop n (b ∷ bs)) in
      if ltb (length (b ∷ bs)) n
      then out_of_bounds
      else (more >>= (λ (done, out). ok (done, take n (b ∷ bs) ++ out)))
]

-- A socket that takes something of what it is given, and no more than that.
abbrev pub IsSending : Socket → Type 0
IsSending sock =
    (call b : ℕ) (bs : List ℕ) → (n : ℕ) × (sock call (b ∷ bs) ≡ some (suc n)) × (n ≤ length bs)

-- With a socket that takes at least one byte of what it is given, and no more than that, the send
-- loop ends with the whole text sent in order, given as many rounds as the text has bytes.
pub send_all_total :
    (sock : Socket)
    → IsSending sock
    → (fuel call : ℕ) (text : List ℕ) → length text ≤ fuel
    → send_all fuel sock call text ≡ ok (true, text)
unfolding send_all
send_all_total sock takes fuel call [] h = refl
send_all_total sock takes zero call (b ∷ bs) h = absurd (omega arith)
send_all_total sock takes (suc fuel) call (b ∷ bs) h =
    let (n, answer, le) = takes call b bs in
    rw (
      answer,
      send_all,
      le→ltb (length (b ∷ bs)) (suc n) (omega arith),
      send_all_total sock takes fuel (call + 1) (drop n bs) (omega (arith, length-drop n bs)),
      take-append-drop n bs,
    )
