-- ===== src/Store/Outbox.antt =====
-- src/store/outbox.h, `Outbox`: the submissions that wait, each queued once for its key, and the
-- file that they are kept in. A file is its bytes; every method runs under the mutex, as one step.
-- The `unordered_set` is a list of which only membership is read.
pub mod Keys
pub mod Valid
pub mod Drop
pub mod Accept
pub mod File
pub mod Rotation
use btc_multipool_cache_mine.Base.{
  ℕ, zero, suc, ◌+◌, ◌*◌, ◌^◌, bit_xor, List, [], ◌∷◌, ◌++◌, Option, none, some, Bool, true, false,
  not, ◌&&◌, ◌||◌, if◌then◌else◌, ◌==◌, ltb, u64, u8, ◌<<<◌, ◌>>>◌, length, take, drop,
}

pub record PendingSubmit : Type 0 where
  pub work_id : ℕ
  pub nonce : ℕ
  pub header80 : List ℕ

-- The front of the queue is the head of the list.
pub record Outbox : Type 0 where
  pub q : List PendingSubmit
  pub seen : List ℕ

abbrev pub empty : Outbox
empty = record { q = []; seen = [] }

unfoldable pub key : ℕ → ℕ → ℕ
key work_id nonce = bit_xor (u64 (work_id <<< 32)) nonce

unfoldable pub key_of : PendingSubmit → ℕ
key_of s = key s.work_id s.nonce

-- `seen_.count(k)` and `seen_.erase(k)`.
unfoldable pub count : ℕ → List ℕ → Bool
count k [] = false
count k (j ∷ js) = (j == k) || count k js

unfoldable pub erase : ℕ → List ℕ → List ℕ
erase k [] = []
erase k (j ∷ js) = if j == k then erase k js else j ∷ erase k js

unfoldable pub enqueue : PendingSubmit → Outbox → Outbox
enqueue s o =
    if count (key_of s) o.seen then o else record { q = o.q ++ s ∷ []; seen = key_of s ∷ o.seen }

unfoldable pub front : List PendingSubmit → Outbox → Option PendingSubmit × Outbox
front [] o = (none, o)
front (s ∷ rest) o = (some s, record o { q = rest })

unfoldable pub try_dequeue : Outbox → Option PendingSubmit × Outbox
unfolding front
try_dequeue o = front o.q o

abbrev pub matches : ℕ → ℕ → PendingSubmit → Bool
matches work_id nonce s = (s.work_id == work_id) && (s.nonce == nonce)

-- The loop of `drop`: whether an entry was removed, the entries kept, and the keys.
unfoldable pub drop_loop : ℕ → ℕ → Bool → List PendingSubmit → Outbox → Bool × Outbox
drop_loop work_id nonce removed [] o = (removed, o)
drop_loop work_id nonce removed (s ∷ rest) o =
    drop_loop work_id nonce (removed || matches work_id nonce s) rest (
      if not removed && matches work_id nonce s
      then record o { seen = erase (key_of s) o.seen }
      else record o { q = o.q ++ s ∷ [] })

unfoldable pub drop_entry : ℕ → ℕ → Outbox → Bool × Outbox
unfolding drop_loop
drop_entry work_id nonce o = drop_loop work_id nonce false o.q (record o { q = [] })

-- The bytes of a number in memory, the least significant first.
unfoldable pub le_bytes : ℕ → ℕ → List ℕ
le_bytes zero n = []
le_bytes (suc k) n = u8 n ∷ le_bytes k (n >>> 8)

unfoldable pub le_value : List ℕ → ℕ
le_value [] = 0
le_value (b ∷ bs) = b + 2 ^ 8 * le_value bs

unfoldable pub encode : PendingSubmit → List ℕ
unfolding le_bytes
encode s = le_bytes 8 s.work_id ++ (le_bytes 4 s.nonce ++ s.header80)

-- Whether the file opens is an argument of the methods that write; one that does not stays as it is.
unfoldable pub append_to_file : Bool → PendingSubmit → List ℕ → Bool × List ℕ
append_to_file false s file = (false, file)
append_to_file true s file = (true, file ++ encode s)

unfoldable pub encode_all : List PendingSubmit → List ℕ
encode_all [] = []
encode_all (s ∷ rest) = encode s ++ encode_all rest

unfoldable pub rewrite_file : Bool → Outbox → List ℕ → Bool × List ℕ
unfolding encode_all
rewrite_file false o file = (false, file)
rewrite_file true o file = (true, encode_all o.q)

-- `ifs.read` of `n` bytes: the bytes and the rest, or a failed stream.
abbrev pub read : ℕ → List ℕ → Option (List ℕ × List ℕ)
read n bytes = if ltb (length bytes) n then none else some (take n bytes, drop n bytes)

infixl 5 ◌>>=◌
abbrev ◌>>=◌ {ℓ κ} : {A : Type ℓ} {B : Type κ} → Option A → (A → Option B) → Option B
none >>= f = none
some a >>= f = f a

unfoldable pub read_record : List ℕ → Option (PendingSubmit × List ℕ)
unfolding le_value
read_record bytes = do
  (id, r1) ← read 8 bytes
  (nonce, r2) ← read 4 r1
  (header, r3) ← read 80 r2
  some (record { work_id = le_value id; nonce = le_value nonce; header80 = header }, r3)

-- The loop of `loadFromFile`, on fuel.
unfoldable pub load_loop : ℕ → List ℕ → Outbox → Outbox
load_loop zero bytes o = o
load_loop (suc fuel) bytes o = elim (read_record bytes) [
  | none ↦ o
  | some (s, rest) ↦ load_loop fuel rest (enqueue s o)
]

-- A file that does not open leaves the queue and the keys as they are.
unfoldable pub load_from_file : Option (List ℕ) → Outbox → Bool × Outbox
unfolding load_loop
load_from_file none o = (false, o)
load_from_file (some bytes) o = (true, load_loop (length bytes) bytes empty)
