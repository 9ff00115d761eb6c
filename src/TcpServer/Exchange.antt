-- ===== src/TcpServer/Exchange.antt =====
-- slaves/test/async_client.cpp talking to slaves/test/connection.cpp: what the client prints, whatever the
-- order and the failures of its operations.
use robotd.Common.{
  ℕ, ◌≡◌, ◌≢◌, refl, ◌++◌, ◌⊎◌, inl, inr, Bytes, Bool, true, false, Option, List, [], ◌∷◌, All,
  codes, arith, append_assoc, ◌∙◌, ap, sym,
}
use robotd.TcpServer.Reply.{bad_request, to_buffer, to_buffers, stock_reply, header_buffers, crlf}
use robotd.TcpServer.Reply.Read.{wire}
use robotd.TcpServer.Connection.{Connection, Reachable}
use robotd.TcpServer.Connection.Life.{refusal, reachable-writes}
use robotd.TcpServer.Client.{
  Client, client, Pending, nothing, resolving, connecting, writing_request, reading_status,
  reading_headers, reading_content, Output, error_message, status_code, split_line, ReadResult,
  handle_resolve, handle_connect, handle_write_request, handle_read_status_line,
  handle_read_headers, handle_read_content,
}
use robotd.TcpServer.Client.Session.{received, read_status_line-to_buffer, is_http_lem}

-- The bytes that the connection sent.
unfoldable pub sent : List (List Bytes) → Bytes
sent [] = []
sent (buffers ∷ writes) = wire buffers ++ sent writes

-- The client after some of its handlers. The read of the status line ends once a line is there; what else
-- of the reply has come by then, stands behind it.
pub data Exchange (conn : Connection) : Client → Type 0 where
  begins : (server path : Bytes) → Exchange conn (client server path)
  resolved :
      (failed : Bool) {c : Client}
      → Exchange conn c
      → c.pending ≡ resolving
      → Exchange conn (handle_resolve failed c)
  connected :
      (failed : Bool) {c : Client}
      → Exchange conn c
      → c.pending ≡ connecting
      → Exchange conn (handle_connect failed c)
  request_written :
      (failed : Bool) {c : Client}
      → Exchange conn c
      → c.pending ≡ writing_request
      → Exchange conn (handle_write_request failed c)
  status_failed :
      {c : Client}
      → Exchange conn c
      → c.pending ≡ reading_status
      → Exchange conn (handle_read_status_line true c)
  status_read :
      (s rest : Bytes) {c : Client}
      → Exchange conn c
      → c.pending ≡ reading_status
      → s ++ rest ≡ sent conn.writes
      → (split_line s).2 ≡ true
      → Exchange conn (handle_read_status_line false (received s c))
  headers_read :
      (failed : Bool) (s : Bytes) {c : Client}
      → Exchange conn c
      → c.pending ≡ reading_headers
      → Exchange conn (handle_read_headers failed (received s c))
  content_read :
      (result : ReadResult) (s : Bytes) {c : Client}
      → Exchange conn c
      → c.pending ≡ reading_content
      → Exchange conn (handle_read_content result (received s c))

-- What was printed, by what is pending.
abbrev pub PrintedBy : Pending → List Output → Type 0
PrintedBy nothing output = (output ≡ error_message ∷ []) ⊎ (output ≡ status_code 400 ∷ [])
PrintedBy resolving output = output ≡ []
PrintedBy connecting output = output ≡ []
PrintedBy writing_request output = output ≡ []
PrintedBy reading_status output = output ≡ []
PrintedBy reading_headers output = ⊥
PrintedBy reading_content output = ⊥

cons_same : (c d : ℕ) (s t : Bytes) → c ∷ s ≡ d ∷ t → (c ≡ d) × (s ≡ t)
cons_same c d s t e = (cc, cc)

found_later : (c : ℕ) (s : Bytes) → c ≢ 10 → (split_line (c ∷ s)).2 ≡ true → (split_line s).2 ≡ true
unfolding split_line
found_later c s h found = ground arith

-- A prefix with a line feed holds the whole first line.
line_of_prefix :
    (a b s rest : Bytes)
    → All (λ c. c ≢ 10) a
    → s ++ rest ≡ a ++ 10 ∷ b
    → (split_line s).2 ≡ true
    → (more : Bytes) × (s ≡ a ++ 10 ∷ more)
unfolding split_line
line_of_prefix a b [] rest h e found = cc
line_of_prefix [] b (c ∷ s) rest h e found = (s, ground (arith, e))
line_of_prefix (d ∷ a) b (c ∷ s) rest (p, h) e found =
    let (same, tail) = cons_same c d (s ++ rest) (a ++ 10 ∷ b) e in
    let (more, is_rest) =
      line_of_prefix a b s rest h tail (found_later c s (λ k. p (sym same ∙ k)) found) in
    (more, rw (same, is_rest))

abbrev status_text : Bytes
status_text = codes "HTTP/1.0 400 Bad Request\r"

status_text_one : All (λ c. c ≢ 10) status_text
status_text_one = ground arith

status_line_lem : (more : Bytes) → to_buffer bad_request ++ more ≡ status_text ++ 10 ∷ more
unfolding to_buffer
status_line_lem more = refl

-- What comes behind the status line of a refusal.
abbrev behind : Bytes
behind = wire (
    header_buffers (stock_reply bad_request).headers
    ++ crlf ∷ (stock_reply bad_request).content ∷ [])

sent-refusal : sent (refusal ∷ []) ≡ to_buffer bad_request ++ (behind ++ [])
unfolding sent to_buffers wire stock_reply
sent-refusal = append_assoc (to_buffer bad_request) behind []

judged :
    (more : Bytes) (c : Client)
    → handle_read_status_line false (received (to_buffer bad_request ++ more) c)
      ≡ record c { response = more; pending = nothing; output = c.output ++ status_code 400 ∷ [] }
unfolding handle_read_status_line
judged more c = read_status_line-to_buffer bad_request more c ∙ rw is_http_lem

sent_nothing : sent [] ≡ []
unfolding sent
sent_nothing = refl

no_line : (s rest : Bytes) → s ++ rest ≡ [] → ¬ ((split_line s).2 ≡ true)
unfolding split_line
no_line [] rest e found = cc
no_line (c ∷ s) rest e found = cc

status_read-PrintedBy :
    (conn : Connection) (s rest : Bytes) (c : Client)
    → (conn.writes ≡ []) ⊎ (conn.writes ≡ refusal ∷ [])
    → s ++ rest ≡ sent conn.writes
    → (split_line s).2 ≡ true
    → c.output ≡ []
    → let d = handle_read_status_line false (received s c) in PrintedBy d.pending d.output
status_read-PrintedBy conn s rest c (inl none) e found quiet =
    absurd (no_line s rest (e ∙ ap sent none ∙ sent_nothing) found)
status_read-PrintedBy conn s rest c (inr once) e found quiet =
    let (more, same) =
      line_of_prefix status_text (behind ++ []) s rest status_text_one
        (e ∙ ap sent once ∙ sent-refusal ∙ status_line_lem (behind ++ [])) found in
    let all =
      ap (λ t. handle_read_status_line false (received t c)) (same ∙ sym (status_line_lem more))
      ∙ judged more c in
    rw (all, quiet) (inr refl)

exchange-PrintedBy :
    (conn : Connection) {c : Client}
    → (conn.writes ≡ []) ⊎ (conn.writes ≡ refusal ∷ [])
    → Exchange conn c
    → PrintedBy c.pending c.output
unfolding client handle_resolve handle_connect handle_write_request handle_read_status_line
exchange-PrintedBy conn w (begins server path) = refl
exchange-PrintedBy conn w (resolved failed x e) = ground (arith, e, exchange-PrintedBy conn w x)
exchange-PrintedBy conn w (connected failed x e) = ground (arith, e, exchange-PrintedBy conn w x)
exchange-PrintedBy conn w (request_written failed x e) =
    ground (arith, e, exchange-PrintedBy conn w x)
exchange-PrintedBy conn w (status_failed x e) = ground (arith, e, exchange-PrintedBy conn w x)
exchange-PrintedBy conn w (status_read s rest {c} x e same found) =
    status_read-PrintedBy conn s rest c w same found
      (ground (arith, e, exchange-PrintedBy conn w x))
exchange-PrintedBy conn w (headers_read failed s x e) =
    ground (arith, e, exchange-PrintedBy conn w x)
exchange-PrintedBy conn w (content_read result s x e) =
    ground (arith, e, exchange-PrintedBy conn w x)

-- Between a client and a connection of the server, whatever page is asked for, however much of
-- the reply has come when its first line is there, and whichever operations of either fail, the
-- client prints nothing while it works, and when it ends an error or the status number 400
-- alone.
pub exchange-reachable :
    (open_file : Bytes → Option Bytes) {n : ℕ} {conn : Connection} {c : Client}
    → Reachable open_file n conn
    → Exchange conn c
    → PrintedBy c.pending c.output
exchange-reachable open_file {n} {conn} r x =
    exchange-PrintedBy conn (reachable-writes open_file r).1 x
