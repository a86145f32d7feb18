-- ===== src/Net/RpcClient/Response.antt =====
-- src/net/rpc_client.cc: where `find` and `substr` split the cookie and the response.
use btc_multipool_cache_mine.Base.{
  ℕ, suc, ◌≡◌, ◌≤◌, ◌⊎◌, inl, inr, refl, sym, ap, ◌∙◌, List, [], ◌∷◌, ◌++◌, append_assoc,
  append-nil, Option, none, some, true, length, arith,
}
use btc_multipool_cache_mine.Base.Checked.{ok}
use btc_multipool_cache_mine.Net.Send.{Socket, IsSending, send_all_total}
use btc_multipool_cache_mine.Net.RpcClient.{
  strip, split_at, cut, bad_http, Chunk, bytes, finished, try_again, broken, whole, read_response,
  Posted, response, post_failed, body_of, body_at, crlf2, http_post_json,
}

strip_sound : (pat text behind : List ℕ) → strip pat text ≡ some behind → text ≡ pat ++ behind
unfolding strip
strip_sound [] text behind h = grind arith
strip_sound (p ∷ ps) [] behind h = absurd (grind arith)
strip_sound (p ∷ ps) (c ∷ cs) behind h = ground (arith, strip_sound ps cs behind)

strip-append : (pat behind : List ℕ) → strip pat (pat ++ behind) ≡ some behind
unfolding strip
strip-append [] behind = refl
strip-append (p ∷ ps) behind = ground (arith, strip-append ps behind)

-- What `find` promises: the pattern is there, and no earlier place has it.
abbrev pub IsFirst : List ℕ → List ℕ → List ℕ → List ℕ → Type 0
IsFirst pat text before behind =
    (text ≡ before ++ pat ++ behind)
    × ((b a : List ℕ) → text ≡ b ++ pat ++ a → length before ≤ length b)

abbrev pub Lacks : List ℕ → List ℕ → Type 0
Lacks pat text = (b a : List ℕ) → ¬ (text ≡ b ++ pat ++ a)

abbrev Split : List ℕ → List ℕ → Option (List ℕ × List ℕ) → Type 0
Split pat text none = Lacks pat text
Split pat text (some (before, behind)) = IsFirst pat text before behind

cut-Lacks :
    (pat : List ℕ) (c : ℕ) (cs : List ℕ)
    → strip pat (c ∷ cs) ≡ none
    → Lacks pat cs
    → Lacks pat (c ∷ cs)
cut-Lacks pat c cs h s [] a e = absurd (grind (arith, ap (strip pat) e, strip-append pat a, h))
cut-Lacks pat c cs h s (x ∷ b) a e = s b a (grind (arith, e))

cut-IsFirst :
    (pat : List ℕ) (c : ℕ) (cs before behind : List ℕ)
    → strip pat (c ∷ cs) ≡ none
    → IsFirst pat cs before behind
    → (b a : List ℕ) → c ∷ cs ≡ b ++ pat ++ a
    → suc (length before) ≤ length b
cut-IsFirst pat c cs before behind h s [] a e =
    absurd (grind (arith, ap (strip pat) e, strip-append pat a, h))
cut-IsFirst pat c cs before behind h s (x ∷ b) a e = ground (arith, s.1 b a (grind (arith, e)))

cut-Split :
    (pat : List ℕ) (c : ℕ) (cs : List ℕ) (here : Option (List ℕ)) (rest : Option (List ℕ × List ℕ))
    → strip pat (c ∷ cs) ≡ here
    → Split pat cs rest
    → Split pat (c ∷ cs) (cut c here rest)
cut-Split pat c cs (some behind) rest h s =
    (strip_sound pat (c ∷ cs) behind h, λ b a e. omega arith)
cut-Split pat c cs none none h s = cut-Lacks pat c cs h s
cut-Split pat c cs none (some (before, behind)) h s =
    (ap (λ t. c ∷ t) s.0, cut-IsFirst pat c cs before behind h s)

lacks-nil : (p : ℕ) (ps b a : List ℕ) → ¬ ([] ≡ b ++ (p ∷ ps) ++ a)
lacks-nil p ps [] a e = absurd (grind arith)
lacks-nil p ps (x ∷ b) a e = absurd (grind arith)

split_at-Split : (p : ℕ) (ps text : List ℕ) → Split (p ∷ ps) text (split_at (p ∷ ps) text)
unfolding split_at
split_at-Split p ps [] = lacks-nil p ps
split_at-Split p ps (c ∷ cs) =
    cut-Split (p ∷ ps) c cs (strip (p ∷ ps) (c ∷ cs)) (split_at (p ∷ ps) cs) refl
      (split_at-Split p ps cs)

-- Answers of `recv` before the end: bytes, and timeouts, which are tried again.
abbrev pub IsArriving : List Chunk → Type 0
IsArriving [] = Unit {0}
IsArriving (bytes b ∷ es) = IsArriving es
IsArriving (try_again ∷ es) = IsArriving es
IsArriving (finished ∷ es) = ⊥
IsArriving (broken ∷ es) = ⊥

abbrev pub received : List Chunk → List ℕ
received [] = []
received (bytes b ∷ es) = b ++ received es
received (try_again ∷ es) = received es
received (finished ∷ es) = []
received (broken ∷ es) = []

read_response-received :
    (text : List ℕ) (es more : List Chunk)
    → IsArriving es
    → read_response text (es ++ finished ∷ more) ≡ whole (text ++ received es)
unfolding read_response
read_response-received text [] more h = ap whole (sym (append-nil text))
read_response-received text (bytes b ∷ es) more h =
    read_response-received (text ++ b) es more h ∙ ap whole (append_assoc text b (received es))
read_response-received text (try_again ∷ es) more h = read_response-received text es more h
read_response-received text (finished ∷ es) more h = elim h [ ]
read_response-received text (broken ∷ es) more h = elim h [ ]

-- The body behind the first blank line, or the error where there is no blank line.
abbrev pub Answers : List ℕ → Posted → Type 0
Answers text answer =
    ((headers body : List ℕ) × IsFirst crlf2 text headers body × (answer ≡ response body))
    ⊎ (Lacks crlf2 text × (answer ≡ post_failed bad_http))

body_at-Answers :
    (text : List ℕ) (r : Option (List ℕ × List ℕ)) → Split crlf2 text r → Answers text (body_at r)
body_at-Answers text none s = inr (s, refl)
body_at-Answers text (some (headers, body)) s = inl (headers, body, s, refl)

body_of-Answers : (text : List ℕ) → Answers text (body_of (whole text))
unfolding body_of
body_of-Answers text =
    body_at-Answers text (split_at crlf2 text) (split_at-Split 13 (10 ∷ 13 ∷ 10 ∷ []) text)

-- With a socket that takes something of what it is given, and a response that comes in any pieces,
-- timeouts between them, and then ends: `httpPostJson` gives what follows the first blank line, or
-- `bad_http` exactly where there is no blank line.
pub http_post_json-Answers :
    (sock : Socket)
    → IsSending sock
    → (request : List ℕ) (es more : List Chunk) → IsArriving es
    → (answer : Posted) × (http_post_json true sock request (es ++ finished ∷ more) ≡ ok answer)
      × Answers (received es) answer
unfolding http_post_json
http_post_json-Answers sock takes request es more h = (
  body_of (whole (received es)),
  rw (
    send_all_total sock takes (length request) 0 request (omega arith),
    read_response-received [] es more h,
  ),
  body_of-Answers (received es),
)
