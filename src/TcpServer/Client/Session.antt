-- ===== src/TcpServer/Client/Session.antt =====
-- The client and the server together: what the client prints for a reply that the server writes.
use robotd.Common.{
  ℕ, suc, ◌<◌, ◌≡◌, ◌≢◌, refl, ◌++◌, Bytes, codes, true, false, [], ◌∷◌, str_eq_refl, skip_space,
  word, digits, after_digits, decimal, length, map, arith, All, ap, ◌∙◌,
}
use robotd.TcpServer.Reply.{Status, ok, number, to_buffer, Reply, crlf, header_buffers, to_buffers}
use robotd.TcpServer.Reply.Read.{wire}
use robotd.TcpServer.Client.Lines.{IsOneLine, printed, header_lines-header_buffers, length-wire}
use robotd.TcpServer.Client.{
  stream, read_word, read_unsigned, split_line, getline, nothing, reading_headers, status_code,
  blank, Client, judge, is_http, read_status_line, handle_read_status_line, rest_of, read_headers,
  handle_read_headers,
}

-- The client after a reply was put into its buffer.
abbrev pub received : Bytes → Client → Client
received s c = record c { response = s }

pub read_status_line-to_buffer :
    (s : Status) (rest : Bytes) (c : Client)
    → read_status_line (received (to_buffer s ++ rest) c)
      ≡ judge
          (codes "HTTP/1.0")
          (number s)
          (record { rest = rest; good = true; failed = false })
          (record c { response = rest; pending = nothing })
unfolding read_status_line to_buffer read_word read_unsigned getline split_line skip_space word
    digits after_digits decimal
read_status_line-to_buffer ok rest c = refl
read_status_line-to_buffer _ rest c = refl

-- Behind the status line.
abbrev tail_of : Reply → Bytes
tail_of r = wire (header_buffers r.headers ++ crlf ∷ r.content ∷ [])

pub is_http_lem : is_http (codes "HTTP/1.0") ≡ true
is_http_lem = str_eq_refl (codes "HTTP/")

judge-refused :
    (n : ℕ) (rest : Bytes) (c : Client)
    → n ≢ 200
    → (judge (codes "HTTP/1.0") n (stream rest) c).output ≡ c.output ++ status_code n ∷ []
judge-refused n rest c h = ground (arith, is_http_lem, h)

judge-ok :
    (rest : Bytes) (c : Client)
    → judge (codes "HTTP/1.0") 200 (stream rest) c ≡ record c { pending = reading_headers }
judge-ok rest c = rw is_http_lem

-- Of a reply with another status than 200 that the server writes the client prints the status
-- number.
pub handle_read_status_line-refused :
    (r : Reply) (c : Client)
    → number r.status ≢ 200
    → (handle_read_status_line false (received (wire (to_buffers r)) c)).output
      ≡ c.output ++ status_code (number r.status) ∷ []
unfolding handle_read_status_line wire to_buffers
handle_read_status_line-refused r c h =
    ap (λ d. d.output) (read_status_line-to_buffer r.status (tail_of r) c)
    ∙ judge-refused (number r.status) (tail_of r)
        (record c { response = tail_of r; pending = nothing }) h

status_ok :
    (r : Reply) (c : Client)
    → r.status ≡ ok
    → handle_read_status_line false (received (wire (to_buffers r)) c)
      ≡ record c { response = tail_of r; pending = reading_headers }
unfolding handle_read_status_line wire to_buffers
status_ok r c e =
    let d : Client = record c { response = tail_of r; pending = nothing } in
    read_status_line-to_buffer r.status (tail_of r) c
    ∙ ap (λ s. judge (codes "HTTP/1.0") (number s) (stream (tail_of r)) d) e
    ∙ judge-ok (tail_of r) d

enough_fuel : (r : Reply) → length r.headers < suc (length (tail_of r))
enough_fuel r = omega (arith, length-wire r.headers (crlf ∷ r.content ∷ []))

-- Of a reply with the status 200 that the server writes and whose headers hold no line feed,
-- the client, with the reply in its buffer, prints the header lines, an empty line and the
-- content if there is any.
pub handle_read_headers-ok :
    (r : Reply) (c : Client)
    → r.status ≡ ok
    → All IsOneLine r.headers
    → (handle_read_headers false
        (handle_read_status_line false (received (wire (to_buffers r)) c))).output
      ≡ c.output ++ (map printed r.headers ++ blank ∷ rest_of r.content)
unfolding handle_read_headers read_headers
handle_read_headers-ok r c e o =
    ap (λ d. (handle_read_headers false d).output) (status_ok r c e)
    ∙ ap (λ x. c.output ++ (x.0 ++ blank ∷ rest_of x.1))
        (header_lines-header_buffers (suc (length (tail_of r))) r.headers r.content o
          (enough_fuel r))
