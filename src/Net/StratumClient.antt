-- ===== src/Net/StratumClient.antt =====
-- src/net/stratum_client.cc: lines out and lines in. The text of a JSON value is an argument; what the
-- socket receives is a list of events, one for a call of `recv` for one byte.
pub mod Lines
use btc_multipool_cache_mine.Base.{
  ℕ, List, [], ◌∷◌, ◌++◌, Bool, true, false, if◌then◌else◌, ◌==◌, length,
}
use btc_multipool_cache_mine.Base.Checked.{Checked, ok}
use btc_multipool_cache_mine.Net.Send.{Socket, send_all}

-- A byte, the answer -2, or any other answer that is not positive.
pub data Received : Type 0 where
  byte : ℕ → Received
  timed_out closed : Received

-- `RecvStatus`; `waiting` where the events end before the call returns.
pub data RecvStatus : Type 0 where
  line timeout shut waiting : RecvStatus

pub record RecvLine : Type 0 where
  pub status : RecvStatus
  pub text : List ℕ
  pub left : List Received

abbrev pub shut_or_line : List ℕ → List Received → RecvLine
shut_or_line [] es = record { status = shut; text = []; left = es }
shut_or_line (c ∷ cs) es = record { status = line; text = c ∷ cs; left = es }

-- A line that the end of the connection cuts off is a line; one that a timeout cuts off is dropped.
unfoldable pub recv_loop : List ℕ → List Received → RecvLine
recv_loop text [] = record { status = waiting; text = []; left = [] }
recv_loop text (byte c ∷ es) =
    let more = recv_loop (text ++ c ∷ []) es in
    if c == 10 then record { status = line; text = text; left = es } else more
recv_loop text (timed_out ∷ es) = record { status = timeout; text = []; left = es }
recv_loop text (closed ∷ es) = shut_or_line text es

unfoldable pub recv_line : Bool → List Received → RecvLine
recv_line false es = record { status = shut; text = []; left = es }
recv_line true es = recv_loop [] es

-- `sendJson`, with "\r\n" behind the text.
unfoldable pub send_json : Bool → Socket → List ℕ → Checked (Bool × List ℕ)
send_json false sock text = ok (false, [])
send_json true sock text = let whole = text ++ 13 ∷ 10 ∷ [] in send_all (length whole) sock 0 whole
