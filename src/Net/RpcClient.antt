-- ===== src/Net/RpcClient.antt =====
-- src/net/rpc_client.cc: `RpcClient`. The socket, the text of the cookie file and the reader of JSON are
-- arguments; the URL is taken as its parts, which `regex_match` gives.
pub mod Response
use btc_multipool_cache_mine.Base.{
  ℕ, zero, suc, ◌+◌, ◌≡◌, List, [], ◌∷◌, ◌++◌, Option, none, some, Bool, true, false, if◌then◌else◌,
  ◌==◌, length,
}
use btc_multipool_cache_mine.Base.Checked.{Checked, ok, out_of_bounds, ◌>>=◌}
use btc_multipool_cache_mine.Net.Send.{Socket, send_all}
use btc_multipool_cache_mine.Net.Base64.{base64}

-- What is left of the text behind a prefix.
unfoldable pub strip : List ℕ → List ℕ → Option (List ℕ)
strip [] text = some text
strip (p ∷ ps) [] = none
strip (p ∷ ps) (c ∷ cs) = let rest = strip ps cs in if c == p then rest else none

abbrev pub cut : ℕ → Option (List ℕ) → Option (List ℕ × List ℕ) → Option (List ℕ × List ℕ)
cut c (some behind) rest = some ([], behind)
cut c none none = none
cut c none (some (before, behind)) = some (c ∷ before, behind)

-- `find` of a pattern that is not empty, with the two `substr` around it.
unfoldable pub split_at : List ℕ → List ℕ → Option (List ℕ × List ℕ)
split_at pat [] = none
split_at pat (c ∷ cs) = cut c (strip pat (c ∷ cs)) (split_at pat cs)

pub data LastError : Type 0 where
  no_error cookie_not_found invalid_cookie connect_failed send_failed recv_failed bad_http bad_json
        no_result :
      LastError
  server_error : List ℕ → LastError

pub record Credentials : Type 0 where
  pub username : List ℕ
  pub password : List ℕ
  pub last_error : LastError

abbrev failed_with : Credentials → LastError → Credentials
failed_with s e = record { username = s.username; password = s.password; last_error = e }

abbrev read_cookie : Credentials → Option (List ℕ) → Bool × Credentials
read_cookie s none = (false, failed_with s cookie_not_found)
read_cookie s (some content) = elim (split_at (58 ∷ []) content) [
  | none ↦ (false, failed_with s invalid_cookie)
  | some (user, pass) ↦
      (true, record { username = user; password = pass; last_error = s.last_error })
]

-- The first line of the cookie file, `none` where the file does not open.
unfoldable pub ensure_cookie : Credentials → Option (List ℕ) → Bool × Credentials
ensure_cookie s cookie = elim s.username [ c ∷ cs ↦ (true, s) | [] ↦ read_cookie s cookie ]

-- "Authorization: Basic " and "\r\n" around the text in base 64, or nothing without a user.
unfoldable pub auth_header : List ℕ → Credentials → List ℕ
auth_header basic s = elim s.username [
  | [] ↦ []
  | c ∷ cs ↦ basic ++ base64 (s.username ++ 58 ∷ s.password) ++ 13 ∷ 10 ∷ []
]

-- An answer of `recv`: bytes, none at the end, -2, or another negative number.
pub data Chunk : Type 0 where
  bytes : List ℕ → Chunk
  finished try_again broken : Chunk

-- `waiting` where the events end before the loop does.
pub data Reading : Type 0 where
  whole : List ℕ → Reading
  failed waiting : Reading

unfoldable pub read_response : List ℕ → List Chunk → Reading
read_response resp [] = waiting
read_response resp (bytes b ∷ es) = read_response (resp ++ b) es
read_response resp (finished ∷ es) = whole resp
read_response resp (try_again ∷ es) = read_response resp es
read_response resp (broken ∷ es) = failed

-- The text that separates the headers from the body.
abbrev pub crlf2 : List ℕ
crlf2 = 13 ∷ 10 ∷ 13 ∷ 10 ∷ []

pub data Posted : Type 0 where
  response : List ℕ → Posted
  post_failed : LastError → Posted
  still_waiting : Posted

abbrev pub body_at : Option (List ℕ × List ℕ) → Posted
body_at none = post_failed bad_http
body_at (some (headers, body)) = response body

unfoldable pub body_of : Reading → Posted
body_of waiting = still_waiting
body_of failed = post_failed recv_failed
body_of (whole resp) = body_at (split_at crlf2 resp)

abbrev pub after_send : List Chunk → Bool × List ℕ → Posted
after_send es (false, out) = post_failed send_failed
after_send es (true, out) = body_of (read_response [] es)

-- `httpPostJson` behind `connect`, for the text of the request.
unfoldable pub http_post_json : Bool → Socket → List ℕ → List Chunk → Checked Posted
http_post_json false sock request es = ok (post_failed connect_failed)
http_post_json true sock request es =
    send_all (length request) sock 0 request >>= (λ sent. ok (after_send es sent))

-- What the reader of JSON finds in a response: no JSON, or the members `error` and `result`, where
-- an error that is null stands apart.
pub data Member {ℓ} (J : Type ℓ) : Type ℓ where
  missing null : Member J
  value : J → Member J

pub data Parsed {ℓ} (J : Type ℓ) : Type ℓ where
  discarded : Parsed J
  object : Member J → Option J → Parsed J

-- `call` behind `httpPostJson`: the result, and what `last_error_` becomes. `dump` prints a value.
unfoldable pub answer_of {ℓ} :
    {J : Type ℓ} → (J → List ℕ) → LastError → Parsed J → Option J × LastError
answer_of dump e discarded = (none, bad_json)
answer_of dump e (object missing r) = (none, e)
answer_of dump e (object (value j) r) = (none, server_error (dump j))
answer_of dump e (object null none) = (none, no_result)
answer_of dump e (object null (some j)) = (some j, e)

unfoldable pub parsed_answer {ℓ} :
    {J : Type ℓ} → (List ℕ → Parsed J) → (J → List ℕ) → LastError → Posted → Option J × LastError
parsed_answer parse dump e (response body) = answer_of dump e (parse body)
parsed_answer parse dump e (post_failed f) = (none, f)
parsed_answer parse dump e still_waiting = (none, e)
