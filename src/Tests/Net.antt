-- ===== src/Tests/Net.antt =====
-- Lines, requests and credentials.
use btc_multipool_cache_mine.Base.{
  ℕ, ◌≡◌, refl, ap, List, [], ◌∷◌, ◌++◌, some, true, arith, length, min, AreBytes,
}
use btc_multipool_cache_mine.Base.Checked.{ok}
use btc_multipool_cache_mine.Net.Base64.{base64}
use btc_multipool_cache_mine.Net.Base64.Decode.{decode}
use btc_multipool_cache_mine.Net.Base64.Roundtrip.{decode-base64}
use btc_multipool_cache_mine.Net.Send.{Socket, IsSending}
use btc_multipool_cache_mine.Net.StratumClient.{timed_out}
use btc_multipool_cache_mine.Net.StratumClient.Lines.{sent_lines, recv_lines, recv_lines-sent_lines}
use btc_multipool_cache_mine.Net.RpcClient.{Posted, bytes, finished, try_again, http_post_json}
use btc_multipool_cache_mine.Net.RpcClient.Response.{Answers, http_post_json-Answers}

abbrev foobar : List ℕ
foobar = 102 ∷ 111 ∷ 111 ∷ 98 ∷ []

foobar-AreBytes : AreBytes foobar
foobar-AreBytes = (omega arith, (omega arith, (omega arith, (omega arith, tt))))

decode-base64_example : decode (base64 foobar) ≡ some foobar
decode-base64_example = decode-base64 foobar foobar-AreBytes

-- A socket that takes at most three bytes at a time.
abbrev three_at_most : Socket
three_at_most call bs = some (min 3 (length bs))

three_at_most-IsSending : IsSending three_at_most
three_at_most-IsSending call b bs = (min 2 (length bs), ap some (omega arith), omega arith)

recv_lines-sent_lines_example :
    recv_lines 2 (sent_lines (foobar ∷ [] ∷ []) ++ timed_out ∷ [])
    ≡ (foobar ∷ [] ∷ [], timed_out ∷ [])
recv_lines-sent_lines_example =
    recv_lines-sent_lines (foobar ∷ [] ∷ []) (timed_out ∷ [])
      ((refl, (refl, (refl, (refl, tt)))), (tt, tt))

http_post_json-Answers_example :
    (answer : Posted) × (http_post_json true three_at_most foobar
        ((bytes (72 ∷ 13 ∷ 10 ∷ []) ∷ try_again ∷ bytes (13 ∷ 10 ∷ 123 ∷ []) ∷ []) ++ finished ∷ [])
      ≡ ok answer)
    × Answers (72 ∷ 13 ∷ 10 ∷ 13 ∷ 10 ∷ 123 ∷ []) answer
http_post_json-Answers_example =
    http_post_json-Answers three_at_most three_at_most-IsSending foobar
      (bytes (72 ∷ 13 ∷ 10 ∷ []) ∷ try_again ∷ bytes (13 ∷ 10 ∷ 123 ∷ []) ∷ []) [] tt
