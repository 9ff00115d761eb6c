-- ===== src/TcpServer/Reply/Read.antt =====
-- What a client reads: a description of HTTP/1.0 replies on its own, and the proof that the replies
-- which are written are read back.
use robotd.Common.{
  ℕ, zero, suc, ◌<◌, ◌≡◌, ◌≢◌, refl, Bytes, Option, none, some, List, [], ◌∷◌, ◌++◌, ◌==◌,
  if◌then◌else◌, arith, All, digits, decimal, length, drop, append_assoc, append-nil, All-append,
  All-map, sym, ◌∙◌, ap,
}
use robotd.TcpServer.Reply.{
  Status, ok, number, to_buffer, Header, Reply, crlf, name_value_separator, header_buffers,
  to_buffers,
}

-- The bytes that are written.
unfoldable pub wire : List Bytes → Bytes
wire [] = []
wire (b ∷ buffers) = b ++ wire buffers

abbrev line_end : Bytes → Option (Bytes × Bytes)
line_end [] = none
line_end (c ∷ s) = if c == 10 then some ([], s) else none

abbrev consed : ℕ → Option (Bytes × Bytes) → Option (Bytes × Bytes)
consed c none = none
consed c (some (l, rest)) = some (c ∷ l, rest)

-- A line and what stands behind it. A carriage return without a line feed is refused.
unfoldable pub line : Bytes → Option (Bytes × Bytes)
line [] = none
line (c ∷ s) = let rest = line s in if c == 13 then line_end s else consed c rest

abbrev field_value : Bytes → Option Header
field_value [] = none
field_value (c ∷ s) = if c == 32 then some (record { name = []; value = s }) else none

abbrev named : ℕ → Option Header → Option Header
named c none = none
named c (some h) = some (record h { name = c ∷ h.name })

-- A header line, parted at the first colon, which a space must follow.
unfoldable pub field : Bytes → Option Header
field [] = none
field (c ∷ s) = let rest = field s in if c == b':' then field_value s else named c rest

abbrev with_field : Option Header → Option (List Header × Bytes) → Option (List Header × Bytes)
with_field none rest = none
with_field (some h) none = none
with_field (some h) (some (hs, body)) = some (h ∷ hs, body)

-- The header lines up to the empty line, and the body.
unfoldable pub read_headers : ℕ → Bytes → Option (List Header × Bytes)
read_headers zero s = none
read_headers (suc fuel) s = elim (line s) [
  | none ↦ none
  | some (l, rest) ↦
      let more = read_headers fuel rest in
      elim l [ [] ↦ some ([], rest) | c ∷ cs ↦ with_field (field (c ∷ cs)) more ]
]

-- The number behind "HTTP/1.0 ", and what stands behind the line.
unfoldable pub read_status : Bytes → Option (ℕ × Bytes)
read_status s = elim (line s) [
  | none ↦ none
  | some (l, rest) ↦ some (decimal (digits (drop 9 l)), rest)
]

abbrev with_status : ℕ → Option (List Header × Bytes) → Option (ℕ × List Header × Bytes)
with_status n none = none
with_status n (some (hs, body)) = some (n, hs, body)

-- The status number, the headers and the body.
unfoldable pub read_reply : ℕ → Bytes → Option (ℕ × List Header × Bytes)
read_reply fuel s = elim (read_status s) [
  | none ↦ none
  | some (n, rest) ↦ with_status n (read_headers fuel rest)
]

abbrev pub IsText : ℕ → Type 0
IsText c = c ≢ 13

abbrev pub IsNameByte : ℕ → Type 0
IsNameByte c = (c ≢ 13) × (c ≢ b':')

-- A header whose name has no colon and no carriage return, and whose value has no carriage return.
pub record IsField (h : Header) : Type 0 where
  pub name_bytes : All IsNameByte h.name
  pub value_bytes : All IsText h.value

line-append : (l rest : Bytes) → All IsText l → line (l ++ (crlf ++ rest)) ≡ some (l, rest)
unfolding line
line-append [] rest h = refl
line-append (c ∷ l) rest (n, h) = ground (arith, line-append l rest h)

field-append :
    (name value : Bytes)
    → All IsNameByte name
    → field (name ++ (name_value_separator ++ value)) ≡ some (record { name = name; value = value })
unfolding field
field-append [] value h = refl
field-append (c ∷ name) value (n, h) = ground (arith, field-append name value h)

read_status-to_buffer :
    (s : Status) (rest : Bytes) → read_status (to_buffer s ++ rest) ≡ some (number s, rest)
unfolding read_status to_buffer line digits decimal
read_status-to_buffer ok rest = refl
read_status-to_buffer _ rest = refl

-- One header as it is written.
abbrev header_line : Header → Bytes
header_line h = h.name ++ (name_value_separator ++ h.value)

header_line-All : (h : Header) → IsField h → All IsText (header_line h)
header_line-All h f =
    All-append IsText h.name (name_value_separator ++ h.value)
      (All-map IsNameByte IsText (λ c n. n.0) h.name f.name_bytes)
      (λ e. omega (arith, e), (λ e. omega (arith, e), f.value_bytes))

header_line-cons : (h : Header) → (c : ℕ) × (cs : Bytes) × (header_line h ≡ c ∷ cs)
header_line-cons h =
    elim h.name
      as (λ n. (c : ℕ) × (cs : Bytes) × (n ++ (name_value_separator ++ h.value) ≡ c ∷ cs)) [
        | [] ↦ (b':', 32 ∷ h.value, refl)
        | c ∷ cs ↦ (c, cs ++ (name_value_separator ++ h.value), refl)
      ]

line-header :
    (h : Header) (rest : Bytes)
    → IsField h
    → line (h.name ++ (name_value_separator ++ (h.value ++ (crlf ++ rest))))
      ≡ some (header_line h, rest)
line-header h rest f =
    ap line (sym (append_assoc h.name (name_value_separator ++ h.value) (crlf ++ rest)))
    ∙ line-append (header_line h) rest (header_line-All h f)

read_headers-line :
    (fuel c : ℕ) (cs rest s : Bytes)
    → line s ≡ some (c ∷ cs, rest)
    → read_headers (suc fuel) s ≡ with_field (field (c ∷ cs)) (read_headers fuel rest)
unfolding read_headers
read_headers-line fuel c cs rest s e = rw (read_headers, e)

read_headers-end :
    (fuel : ℕ) (rest s : Bytes)
    → line s ≡ some ([], rest)
    → read_headers (suc fuel) s ≡ some ([], rest)
unfolding read_headers
read_headers-end fuel rest s e = rw (read_headers, e)

read_reply-status :
    (fuel n : ℕ) (s rest : Bytes)
    → read_status s ≡ some (n, rest)
    → read_reply fuel s ≡ with_status n (read_headers fuel rest)
unfolding read_reply
read_reply-status fuel n s rest e = rw (read_reply, e)

read_headers-header_buffers :
    (fuel : ℕ) (hs : List Header) (content : Bytes)
    → All IsField hs
    → length hs < fuel
    → read_headers fuel (wire (header_buffers hs ++ crlf ∷ content ∷ [])) ≡ some (hs, content)
unfolding wire header_buffers
read_headers-header_buffers zero hs content h l = absurd (omega (arith, l))
read_headers-header_buffers (suc fuel) [] content h l =
    rw (append-nil content)
      (read_headers-end fuel content (crlf ++ content) (line-append [] content tt))
read_headers-header_buffers (suc fuel) (h ∷ hs) content (f, fs) l =
    let rest = wire (header_buffers hs ++ crlf ∷ content ∷ []) in
    let (c, cs, e) = header_line-cons h in
    let k = field-append h.name h.value f.name_bytes in
    read_headers-line fuel c cs rest _ (line-header h rest f ∙ ap (λ x. some (x, rest)) e)
    ∙ rw (sym e, k, read_headers-header_buffers fuel hs content fs (omega (arith, l)))

-- A reply whose header names have no colon and no carriage return and whose header values have
-- no carriage return is read back by a client, with fuel for one line more than there are
-- headers, as its status number, its headers and its content.
pub read_reply-to_buffers :
    (fuel : ℕ) (r : Reply)
    → All IsField r.headers
    → length r.headers < fuel
    → read_reply fuel (wire (to_buffers r)) ≡ some (number r.status, r.headers, r.content)
unfolding to_buffers wire
read_reply-to_buffers fuel r h l =
    let rest = wire (header_buffers r.headers ++ crlf ∷ r.content ∷ []) in
    read_reply-status fuel (number r.status) _ rest (read_status-to_buffer r.status rest)
    ∙ ap (with_status (number r.status)) (read_headers-header_buffers fuel r.headers r.content h l)
