-- ===== src/TcpServer/Reply/Stock.antt =====
-- The stock replies, and the headers that the program sets.
use robotd.Common.{
  ℕ, ◌≡◌, Bytes, codes, Option, none, some, List, [], ◌∷◌, arith, str_eq, if◌then◌else◌, decimal,
  length, All, All-map, ap,
}
use robotd.Common.Decimal.{to_string, to_string-All, decimal-to_string, IsDigit}
use robotd.TcpServer.Reply.{
  Status, number, Header, content_headers, stock_content, stock_reply, to_buffers,
}
use robotd.TcpServer.Reply.Read.{IsText, IsField, wire, read_reply, read_reply-to_buffers}

-- The length that the headers promise.
unfoldable pub content_length : List Header → Option ℕ
content_length [] = none
content_length (h ∷ headers) =
    let rest = content_length headers in
    if str_eq h.name (codes "Content-Length") then some (decimal h.value) else rest

pub content_length_lem :
    (content kind : Bytes) → content_length (content_headers content kind) ≡ some (length content)
unfolding content_length str_eq
content_length_lem content kind = ap some (decimal-to_string (length content))

IsText-digit : (c : ℕ) → IsDigit c → IsText c
IsText-digit c d e = ground (arith, d, e)

pub content_headers-All :
    (content kind : Bytes) → All IsText kind → All IsField (content_headers content kind)
content_headers-All content kind h = (
  record {
    name_bytes = ground arith;
    value_bytes =
        All-map IsDigit IsText IsText-digit (to_string (length content))
          (to_string-All (length content));
  },
  (record { name_bytes = ground arith; value_bytes = h }, tt),
)

-- A client reads every stock reply as its status number, its headers and its content, and the
-- header Content-Length promises the length of that content.
pub stock_reply-read :
    (s : Status)
    → (read_reply 3 (wire (to_buffers (stock_reply s)))
        ≡ some (number s, (stock_reply s).headers, (stock_reply s).content))
      × (content_length (stock_reply s).headers ≡ some (length (stock_reply s).content))
unfolding stock_reply
stock_reply-read s = (
  read_reply-to_buffers 3 (stock_reply s)
      (content_headers-All (stock_content s) (codes "text/html") (ground arith)) (omega arith),
  content_length_lem (stock_content s) (codes "text/html"),
)
