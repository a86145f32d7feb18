-- ===== src/Store/Outbox/File.antt =====
-- The file of `Outbox` in src/store/outbox.h: what `rewriteFile` writes `loadFromFile` reads back.
use btc_multipool_cache_mine.Base.{
  ℕ, zero, suc, ◌/◌, ◌^◌, ◌<◌, ◌≤◌, ◌≡◌, refl, ap, sym, ◌∙◌, List, [], ◌∷◌, ◌++◌, true, false, none,
  some, arith, length, drop, All, append_assoc, append-nil, length-append, length-drop, take_exact,
  drop_exact, le→ltb, lt→ltb,
}
use native.Mathlib.Nat.{pow-suc}
use native.Mathlib.Decide.{dec_lt}
use btc_multipool_cache_mine.Store.Outbox.{
  PendingSubmit, Outbox, empty, key_of, count, enqueue, le_bytes, le_value, encode, encode_all,
  rewrite_file, read, read_record, load_loop, load_from_file,
}
use btc_multipool_cache_mine.Store.Outbox.Valid.{IsValid, keys, IsDistinct}

-- The fields fit their widths.
pub record IsRecord (s : PendingSubmit) : Type 0 where
  pub work_id_fits : s.work_id < 2 ^ 64
  pub nonce_fits : s.nonce < 2 ^ 32
  pub header_80 : length s.header80 ≡ 80

length-le_bytes : (k n : ℕ) → length (le_bytes k n) ≡ k
unfolding le_bytes
length-le_bytes zero n = refl
length-le_bytes (suc k) n = ap suc (length-le_bytes k (n / 2 ^ 8))

le_value-le_bytes : (k n : ℕ) → n < 256 ^ k → le_value (le_bytes k n) ≡ n
unfolding le_value le_bytes
le_value-le_bytes zero n h = omega arith
le_value-le_bytes (suc k) n h =
    omega (arith, le_value-le_bytes k (n / 2 ^ 8) (omega (arith, pow-suc 256 k)))

module _ (s : PendingSubmit) (r : IsRecord s) (rest : List ℕ) where
  abbrev w8 : List ℕ
  w8 = le_bytes 8 s.work_id

  abbrev w4 : List ℕ
  w4 = le_bytes 4 s.nonce

  -- The reads split off the three fields.
  read_exact : (n : ℕ) (xs ys : List ℕ) → length xs ≡ n → read n (xs ++ ys) ≡ some (xs, ys)
  read_exact n xs ys h = rw (
    le→ltb (length (xs ++ ys)) n (omega (arith, length-append xs ys)),
    take_exact n xs ys h,
    drop_exact n xs ys h,
  )

  split : encode s ++ rest ≡ w8 ++ (w4 ++ (s.header80 ++ rest))
  unfolding encode
  split = append_assoc w8 (w4 ++ s.header80) rest ∙ ap (◌++◌ w8) (append_assoc w4 s.header80 rest)

  pub read_record-encode : read_record (encode s ++ rest) ≡ some (s, rest)
  unfolding read_record
  read_record-encode = rw (
    split,
    read_exact 8 w8 (w4 ++ (s.header80 ++ rest)) (length-le_bytes 8 s.work_id),
    read_exact 4 w4 (s.header80 ++ rest) (length-le_bytes 4 s.nonce),
    read_exact 80 s.header80 rest r.header_80,
    le_value-le_bytes 8 s.work_id r.work_id_fits,
    le_value-le_bytes 4 s.nonce r.nonce_fits,
  )

-- A torn record at the end is not read.
read_record_torn : (torn : List ℕ) → length torn < 92 → read_record torn ≡ none
unfolding read_record
read_record_torn torn h = elim (dec_lt (length torn) 8) [
  | yes no_id ↦ rw (lt→ltb (length torn) 8 no_id)
  | no id ↦ elim (dec_lt (length r1) 4) [
    | yes no_nonce ↦ rw (le→ltb (length torn) 8 (omega arith), lt→ltb (length r1) 4 no_nonce)
    | no nonce ↦ rw (
      le→ltb (length torn) 8 (omega arith),
      le→ltb (length r1) 4 (omega arith),
      lt→ltb (length (drop 4 r1)) 80 (omega (arith, length-drop 4 r1, length-drop 8 torn)),
    )
  ]
]
  where
    r1 : List ℕ
    r1 = drop 8 torn

Unseen-cons :
    (j : ℕ) (seen ks : List ℕ)
    → count j ks ≡ false
    → All (λ k. count k seen ≡ false) ks
    → All (λ k. count k (j ∷ seen) ≡ false) ks
unfolding count
Unseen-cons j seen [] h a = tt
Unseen-cons j seen (k ∷ ks) h a = (ground arith, Unseen-cons j seen ks (ground arith) a.1)

load_loop_torn :
    (fuel : ℕ) (torn : List ℕ) (o : Outbox) → length torn < 92 → load_loop fuel torn o ≡ o
unfolding load_loop
load_loop_torn zero torn o h = refl
load_loop_torn (suc fuel) torn o h = rw (read_record_torn torn h, load_loop)

enqueue_new :
    (s : PendingSubmit) (o : Outbox)
    → count (key_of s) o.seen ≡ false
    → enqueue s o ≡ record { q = o.q ++ s ∷ []; seen = key_of s ∷ o.seen }
unfolding enqueue
enqueue_new s o h = rw h

load_loop-suc :
    (fuel : ℕ) (bytes rest : List ℕ) (s : PendingSubmit) (o : Outbox)
    → read_record bytes ≡ some (s, rest)
    → load_loop (suc fuel) bytes o ≡ load_loop fuel rest (enqueue s o)
unfolding load_loop
load_loop-suc fuel bytes rest s o e = rw (e, load_loop)

-- The loop appends the records whose keys are new to it.
load_loop-encode_all :
    (xs : List PendingSubmit) (torn : List ℕ) (fuel : ℕ) (o : Outbox)
    → length torn < 92
    → length xs ≤ fuel
    → All IsRecord xs
    → IsDistinct (keys xs)
    → All (λ k. count k o.seen ≡ false) (keys xs)
    → (load_loop fuel (encode_all xs ++ torn) o).q ≡ o.q ++ xs
unfolding encode_all
load_loop-encode_all [] torn fuel o short le r d u =
    rw (load_loop_torn fuel torn o short) (sym (append-nil o.q))
load_loop-encode_all (s ∷ xs) torn zero o short le r d u = absurd (omega arith)
load_loop-encode_all (s ∷ xs) torn (suc fuel) o short le r d u =
    rw
      (
        append_assoc (encode s) (encode_all xs) torn,
        load_loop-suc fuel (encode s ++ (encode_all xs ++ torn)) (encode_all xs ++ torn) s o
            (read_record-encode s r.0 (encode_all xs ++ torn)),
        enqueue_new s o u.0,
      )
      (load_loop-encode_all xs torn fuel (record { q = o.q ++ s ∷ []; seen = key_of s ∷ o.seen })
          short (omega arith) r.1 d.1 (Unseen-cons (key_of s) o.seen (keys xs) d.0 u.1)
        ∙ append_assoc o.q (s ∷ []) xs)

length-encode_all : (xs : List PendingSubmit) → length xs ≤ length (encode_all xs)
unfolding encode_all encode le_bytes
length-encode_all [] = omega arith
length-encode_all (s ∷ xs) =
    omega (arith, length-append (encode s) (encode_all xs), length-encode_all xs)

none_seen : (ks : List ℕ) → All (λ k. count k [] ≡ false) ks
unfolding count
none_seen [] = tt
none_seen (k ∷ ks) = (refl, none_seen ks)

-- For a valid outbox whose entries have 64-bit work ids, 32-bit nonces and headers of 80 bytes,
-- loading what `rewriteFile` wrote over any old file, once it could open it, gives the same queue,
-- whatever the outbox held that loads it, and also where fewer than 92 bytes of a torn record
-- follow.
pub load_from_file-rewrite_file :
    (o before : Outbox) (old torn : List ℕ)
    → IsValid o
    → All IsRecord o.q
    → length torn < 92
    → (load_from_file (some ((rewrite_file true o old).1 ++ torn)) before).1.q ≡ o.q
unfolding load_from_file rewrite_file
load_from_file-rewrite_file o before old torn v r short =
    load_loop-encode_all o.q torn (length (encode_all o.q ++ torn)) empty short
      (omega (arith, length-append (encode_all o.q) torn, length-encode_all o.q)) r v.distinct
      (none_seen (keys o.q))
