-- ===== src/TcpServer/Client.antt =====
-- slaves/test/async_client.cpp: a client that asks for one page. Its asynchronous operations are states;
-- the library puts what it reads behind `response` before it calls a handler.
pub mod Lines
pub mod Fuel
pub mod Session
use robotd.Common.{
  ℕ, zero, suc, ◌-◌, ◌%◌, ◌^◌, ◌++◌, Bytes, codes, Bool, true, false, not, ◌||◌, Option, none, some,
  List, [], ◌∷◌, ◌==◌, ltb, if◌then◌else◌, str_eq, skip_space, word, digits, after_digits, decimal,
  drop, take, length,
}

-- An input stream over a buffer: what is left, `good()` and `fail()`.
pub record Stream : Type 0 where
  pub rest : Bytes
  pub good : Bool
  pub failed : Bool

abbrev pub stream : Bytes → Stream
stream s = record { rest = s; good = true; failed = false }

abbrev fail : Stream
fail = record { rest = []; good = false; failed = true }

abbrev is_more : Bytes → Bool
is_more [] = false
is_more (c ∷ s) = true

-- After an extraction that succeeded; a stream that has reached its end is not good any more.
abbrev left : Bytes → Stream
left s = record { rest = s; good = is_more s; failed = false }

abbrev extract_word : Bytes → Bytes × Stream
extract_word [] = ([], fail)
extract_word (c ∷ s) = (word (c ∷ s), left (drop (length (word (c ∷ s))) (c ∷ s)))

-- `>>` into a string.
unfoldable pub read_word : Stream → Bytes × Stream
read_word st =
    if st.good then extract_word (skip_space st.rest) else ([], record st { failed = true })

abbrev number_of : Bytes → ℕ → Stream → ℕ × Stream
number_of [] n st = (0, record st { good = false; failed = true })
number_of (d ∷ ds) n st =
    if ltb n (2 ^ 32) then (n, st) else (2 ^ 32 - 1, record st { good = false; failed = true })

abbrev unsigned_number : Bytes → ℕ × Stream
unsigned_number s = number_of (digits s) (decimal (digits s)) (left (after_digits s))

abbrev negated : ℕ × Stream → ℕ × Stream
negated (n, st) = (if st.failed then n else (2 ^ 32 - n) % 2 ^ 32, st)

abbrev extract_number : Bytes → ℕ × Stream
extract_number [] = (0, fail)
extract_number (c ∷ s) =
    if c == b'-'
    then negated (unsigned_number s)
    else if c == b'+'
    then unsigned_number s
    else unsigned_number (c ∷ s)

-- `>>` into an `unsigned int`.
unfoldable pub read_unsigned : Stream → ℕ × Stream
read_unsigned st =
    if st.good then extract_number (skip_space st.rest) else (0, record st { failed = true })

-- The line, what stands behind its end, and whether there was an end.
unfoldable pub split_line : Bytes → Bytes × Bytes × Bool
split_line [] = ([], [], false)
split_line (c ∷ s) =
    let (l, rest, found) = split_line s in if c == 10 then ([], s, true) else (c ∷ l, rest, found)

-- `std::getline`. A line that the end of the buffer ends leaves the stream bad.
abbrev extract_line : Bytes → Bytes × Stream
extract_line [] = ([], fail)
extract_line (c ∷ s) =
    let (l, rest, found) = split_line (c ∷ s) in
    (l, record { rest = rest; good = found; failed = false })

unfoldable pub getline : Stream → Bytes × Stream
getline st = if st.good then extract_line st.rest else ([], record st { failed = true })

pub data Pending : Type 0 where
  nothing resolving connecting writing_request reading_status reading_headers reading_content :
      Pending

-- What goes to `cout`.
pub data Output : Type 0 where
  error_message invalid_response blank : Output
  status_code : ℕ → Output
  header : Bytes → Output
  content : Bytes → Output

pub record Client : Type 0 where
  pub pending : Pending
  pub request : Bytes
  pub response : Bytes
  pub output : List Output

-- The constructor.
unfoldable pub client : Bytes → Bytes → Client
client server path = record {
  pending = resolving;
  request =
      codes "GET "
      ++ (path
          ++ (codes " HTTP/1.0\r\n"
              ++ (codes "Host: "
                  ++ (server ++ codes "\r\nAccept: */*\r\nConnection: close\r\n\r\n"))));
  response = [];
  output = [];
}

abbrev print : List Output → Client → Client
print lines c = record c { output = c.output ++ lines }

-- The branch that every handler has on an error.
abbrev pub on_error : Bool → Client → Client → Client
on_error failed c next =
    if failed then print (error_message ∷ []) (record c { pending = nothing }) else next

unfoldable pub handle_resolve : Bool → Client → Client
handle_resolve failed c = on_error failed c (record c { pending = connecting })

unfoldable pub handle_connect : Bool → Client → Client
handle_connect failed c = on_error failed c (record c { pending = writing_request })

unfoldable pub handle_write_request : Bool → Client → Client
handle_write_request failed c =
    on_error failed c (record c { pending = reading_status; request = [] })

abbrev pub is_http : Bytes → Bool
is_http version = str_eq (take 5 version) (codes "HTTP/")

-- The three branches on the status line.
abbrev pub judge : Bytes → ℕ → Stream → Client → Client
judge version code st c =
    if st.failed || not (is_http version)
    then print (invalid_response ∷ []) c
    else if not (code == 200)
    then print (status_code code ∷ []) c
    else record c { pending = reading_headers }

unfoldable pub read_status_line : Client → Client
read_status_line c =
    let (version, s1) = read_word (stream c.response) in
    let (code, s2) = read_unsigned s1 in
    let (message, s3) = getline s2 in
    judge version code s3 (record c { response = s3.rest; pending = nothing })

unfoldable pub handle_read_status_line : Bool → Client → Client
handle_read_status_line failed c = on_error failed c (read_status_line c)

-- The loop over the header lines: those before a line of a carriage return alone, and what is left. A
-- buffer of `n` bytes has at most `n` lines.
unfoldable pub header_lines : ℕ → Stream → List Output × Bytes
header_lines zero st = ([], st.rest)
header_lines (suc fuel) st =
    let (line, t) = getline st in
    let (lines, rest) = header_lines fuel t in
    if t.failed || str_eq line (13 ∷ []) then ([], t.rest) else (header line ∷ lines, rest)

abbrev pub rest_of : Bytes → List Output
rest_of [] = []
rest_of (c ∷ s) = content (c ∷ s) ∷ []

unfoldable pub read_headers : Client → Client
read_headers c =
    let (lines, rest) = header_lines (suc (length c.response)) (stream c.response) in
    print (lines ++ blank ∷ rest_of rest) (record c { response = []; pending = reading_content })

unfoldable pub handle_read_headers : Bool → Client → Client
handle_read_headers failed c = on_error failed c (read_headers c)

-- The end of the data is no error.
pub data ReadResult : Type 0 where
  more eof failure : ReadResult

unfoldable pub handle_read_content : ReadResult → Client → Client
handle_read_content more c = print (content c.response ∷ []) (record c { response = [] })
handle_read_content eof c = record c { pending = nothing }
handle_read_content failure c = print (error_message ∷ []) (record c { pending = nothing })
