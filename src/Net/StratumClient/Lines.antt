-- ===== src/Net/StratumClient/Lines.antt =====
-- src/net/stratum_client.cc: what `recvLine` makes of the lines that a peer sends.
use btc_multipool_cache_mine.Base.{
  ℕ, zero, suc, ◌≡◌, refl, sym, ap, ◌∙◌, List, [], ◌∷◌, ◌++◌, append_assoc, append-nil, true, false,
  ◌==◌, map, length,
}
use btc_multipool_cache_mine.Net.StratumClient.{
  Received, byte, timed_out, line, timeout, recv_loop, recv_line,
}

-- The bytes of a text as they arrive.
abbrev pub arriving : List ℕ → List Received
arriving = map byte

-- No byte of the text ends a line.
abbrev pub IsOneLine : List ℕ → Type 0
IsOneLine [] = Unit {0}
IsOneLine (c ∷ cs) = ((c == 10) ≡ false) × IsOneLine cs

recv_loop-arriving :
    (text cs : List ℕ) (es : List Received)
    → IsOneLine cs
    → recv_loop text (arriving cs ++ es) ≡ recv_loop (text ++ cs) es
unfolding recv_loop
recv_loop-arriving text [] es h = ap (λ t. recv_loop t es) (sym (append-nil text))
recv_loop-arriving text (c ∷ cs) es h = rw h.0 (
    recv_loop-arriving (text ++ c ∷ []) cs es h.1
    ∙ ap (λ t. recv_loop t es) (append_assoc text (c ∷ []) cs))

-- A line of the peer, with its end.
abbrev pub sent_line : List ℕ → List Received
sent_line cs = arriving cs ++ byte 10 ∷ []

recv_line-sent_line :
    (cs : List ℕ) (es : List Received)
    → IsOneLine cs
    → recv_line true (sent_line cs ++ es) ≡ record { status = line; text = cs; left = es }
unfolding recv_line
recv_line-sent_line cs es h =
    ap (recv_loop []) (append_assoc (arriving cs) (byte 10 ∷ []) es)
    ∙ recv_loop-arriving [] cs (byte 10 ∷ es) h
    ∙ (unfold recv_loop in refl)

recv_line_part :
    (part : List ℕ) (es : List Received)
    → IsOneLine part
    → recv_line true (arriving part ++ timed_out ∷ es)
      ≡ record { status = timeout; text = []; left = es }
unfolding recv_line
recv_line_part part es h =
    recv_loop-arriving [] part (timed_out ∷ es) h ∙ (unfold recv_loop in refl)

-- `n` calls; the lines that come out, and what is left.
unfoldable pub recv_lines : ℕ → List Received → List (List ℕ) × List Received
recv_lines zero es = ([], es)
recv_lines (suc n) es =
    let r = recv_line true es in let rest = recv_lines n r.left in (r.text ∷ rest.0, rest.1)

abbrev pub sent_lines : List (List ℕ) → List Received
sent_lines [] = []
sent_lines (l ∷ ls) = sent_line l ++ sent_lines ls

abbrev pub AreLines : List (List ℕ) → Type 0
AreLines [] = Unit {0}
AreLines (l ∷ ls) = IsOneLine l × AreLines ls

-- Lines that a peer sends, without line ends inside them, are received one by one with `recvLine`,
-- and what follows them is left.
pub recv_lines-sent_lines :
    (ls : List (List ℕ)) (es : List Received)
    → AreLines ls
    → recv_lines (length ls) (sent_lines ls ++ es) ≡ (ls, es)
unfolding recv_lines
recv_lines-sent_lines [] es h = refl
recv_lines-sent_lines (l ∷ ls) es h = rw (
  append_assoc (sent_line l) (sent_lines ls) es,
  recv_line-sent_line l (sent_lines ls ++ es) h.0,
  recv_lines-sent_lines ls es h.1,
)

-- A timeout in the middle of a line drops what had come of it.
pub recv_line_cut :
    (part rest : List ℕ) (es : List Received)
    → IsOneLine part
    → IsOneLine rest
    → recv_lines 2 (arriving part ++ timed_out ∷ (sent_line rest ++ es)) ≡ ([] ∷ rest ∷ [], es)
unfolding recv_lines
recv_line_cut part rest es p r =
    rw (recv_line_part part (sent_line rest ++ es) p, recv_line-sent_line rest es r)
