-- ===== src/TcpServer/Tests.antt =====
-- The replies and the connections, and the theorems at concrete data.
use robotd.Common.{
  ◌≤◌, ◌≡◌, refl, Bytes, codes, true, false, Option, none, some, List, [], ◌∷◌, ◌++◌, append-nil,
  arith, ◌⊎◌, length, str_eq, skip_space, word, digits, after_digits, decimal,
}
use robotd.Definitions.{child_need_terminate, child_need_work}
use robotd.TcpServer.Reply.{ok, Reply, to_buffer, to_buffers, header_buffers, stock_reply}
use robotd.TcpServer.Reply.Read.{wire, read_reply, read_reply-to_buffers}
use robotd.TcpServer.Connection.{
  Connection, start, handle_read, handle_write, read_done, write_done, Reachable, started, handled,
  respond,
}
use robotd.TcpServer.Connection.Life.{refusal, reachable-writes}
use robotd.TcpServer.Client.{
  Client, client, handle_resolve, handle_connect, handle_write_request, reading_status,
  invalid_response, header, blank, content, handle_read_status_line, read_status_line,
  handle_read_headers, read_word, read_unsigned, getline, split_line, Output, stream,
  reading_content, rest_of,
}
use robotd.TcpServer.Client.Fuel.{Loop, handle_read_headers-Loop}
use robotd.TcpServer.Client.Session.{received, handle_read_headers-ok}
use robotd.TcpServer.Exchange.{
  Exchange, begins, resolved, connected, request_written, status_read, sent, PrintedBy,
  exchange-reachable,
}
use robotd.TcpServer.Server.{tcp_server, Calls, exits, initial, run, accept_all}
use robotd.TcpServer.Server.Accepts.{IsAccepting, accept_all-run}

abbrev small : Reply
small = record {
  status = ok;
  headers = record { name = codes "A"; value = codes "b:c" } ∷ [];
  content = codes "hi\r\n";
}

-- The bytes on the wire.
wire-small : wire (to_buffers small) ≡ codes "HTTP/1.0 200 OK\r\nA: b:c\r\n\r\nhi\r\n"
unfolding wire to_buffers to_buffer header_buffers
wire-small = refl

read_reply-to_buffers_example :
    read_reply 2 (wire (to_buffers small)) ≡ some (200, small.headers, small.content)
read_reply-to_buffers_example =
    read_reply-to_buffers 2 small
      (record { name_bytes = ground arith; value_bytes = ground arith }, tt) (omega arith)

-- A file system in which every path names the same file.
abbrev one_file : Bytes → Option Bytes
one_file path = some (codes "x")

abbrev after_read : Connection
after_read = handle_read one_file false (start ok)

abbrev whole_life : Reachable one_file 2 (handle_write false after_read)
unfolding handle_read respond
whole_life =
    handled (handled (started ok) (read_done false (start ok) refl))
      (write_done false after_read refl)

reachable-writes_example :
    (2 ≤ 2)
    × (((handle_write false after_read).writes ≡ [])
        ⊎ ((handle_write false after_read).writes ≡ refusal ∷ []))
reachable-writes_example = reachable-writes one_file whole_life

-- An address in use: the process asks to be started again, or with DEBUG not to be.
abbrev in_use : Calls
in_use = record { resolve = true; opening = none; set_option = true; bind = some 98; listen = true }

in_use_exits :
    (tcp_server false in_use ≡ exits child_need_work)
    × (tcp_server true in_use ≡ exits child_need_terminate)
unfolding tcp_server
in_use_exits = (refl, refl)

accept_all-run_example :
    let s = accept_all (false ∷ true ∷ false ∷ []) (run initial) in
    IsAccepting s × (length s.started ≡ 2)
accept_all-run_example = accept_all-run (false ∷ true ∷ false ∷ [])

abbrev waiting : Client
waiting = record { pending = reading_status; request = []; response = []; output = [] }

-- The request.
request_lines :
    (client (codes "h") (codes "/")).request
    ≡ codes "GET / HTTP/1.0\r\nHost: h\r\nAccept: */*\r\nConnection: close\r\n\r\n"
unfolding client
request_lines = refl

-- What is no HTTP reply.
other_protocol :
    (handle_read_status_line false (received (codes "FTP 200 OK\r\n") waiting)).output
    ≡ invalid_response ∷ []
unfolding handle_read_status_line read_status_line read_word read_unsigned getline split_line
    skip_space word digits after_digits decimal str_eq
other_protocol = refl

handle_read_headers-ok_example :
    (handle_read_headers false
      (handle_read_status_line false (received (wire (to_buffers small)) waiting))).output
    ≡ header (codes "A: b:c\r") ∷ blank ∷ content (codes "hi\r\n") ∷ []
handle_read_headers-ok_example =
    handle_read_headers-ok small waiting refl
      (record { name_line = ground arith; value_line = ground arith }, tt)

handle_read_headers-Loop_example :
    let c = received (codes "A: b\r\n\r\nhi") waiting in
    (lines : List Output) × (rest : Bytes) × Loop (stream c.response) lines rest
    × (handle_read_headers false c ≡ record c {
      response = [];
      pending = reading_content;
      output = lines ++ blank ∷ rest_of rest;
    })
handle_read_headers-Loop_example =
    handle_read_headers-Loop (received (codes "A: b\r\n\r\nhi") waiting)

-- The client once its request is written.
asking : Client
unfolding client handle_resolve handle_connect handle_write_request
asking =
    handle_write_request false
      (handle_connect false (handle_resolve false (client (codes "h") (codes "/"))))

asked : (c : Connection) → Exchange c asking
unfolding asking
asked c =
    request_written false
      (connected false (resolved false (begins (codes "h") (codes "/")) refl) refl) refl

abbrev answer : Bytes
answer = sent (handle_write false after_read).writes

answer_ends : (split_line answer).2 ≡ true
unfolding sent handle_write handle_read respond wire to_buffers to_buffer header_buffers stock_reply
    split_line
answer_ends = refl

exchange-reachable_example :
    let c = handle_read_status_line false (received answer asking) in PrintedBy c.pending c.output
unfolding asking
exchange-reachable_example = exchange-reachable one_file whole_life (
    status_read answer [] (asked (handle_write false after_read)) refl (append-nil answer)
      answer_ends)
