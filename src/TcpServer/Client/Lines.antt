-- ===== src/TcpServer/Client/Lines.antt =====
-- How the client reads header lines that the server wrote.
use robotd.Common.{
  ℕ, zero, suc, ◌<◌, ◌≤◌, ◌≡◌, ◌≢◌, refl, ◌++◌, Bytes, true, false, List, [], ◌∷◌, str_eq,
  str_eq_refl, length, map, arith, All, All-append, ap, ◌∙◌, sym, append_assoc, append-nil,
  length-append,
}
use mathlib.Core.Path.{subst}
use robotd.TcpServer.Reply.{Header, crlf, name_value_separator, header_buffers}
use robotd.TcpServer.Reply.Read.{wire}
use robotd.TcpServer.Client.{Stream, stream, split_line, getline, Output, header, header_lines}

-- A line of text.
abbrev pub InLine : ℕ → Type 0
InLine c = c ≢ 10

split_line-append : (l rest : Bytes) → All InLine l → split_line (l ++ 10 ∷ rest) ≡ (l, rest, true)
unfolding split_line
split_line-append [] rest h = refl
split_line-append (c ∷ l) rest (p, h) = ground (arith, p, split_line-append l rest h)

pub getline-append :
    (c : ℕ) (l rest : Bytes)
    → All InLine (c ∷ l)
    → getline (stream (c ∷ l ++ 10 ∷ rest)) ≡ (c ∷ l, stream rest)
unfolding getline
getline-append c l rest h = rw (split_line-append (c ∷ l) rest h)

-- A header whose parts hold no line feed.
pub record IsOneLine (h : Header) : Type 0 where
  pub name_line : All InLine h.name
  pub value_line : All InLine h.value

-- What the client prints for it: all but the line feed.
abbrev pub header_text : Header → Bytes
header_text h = h.name ++ (name_value_separator ++ (h.value ++ 13 ∷ []))

abbrev pub printed : Header → Output
printed h = header (header_text h)

header_text-All : (h : Header) → IsOneLine h → All InLine (header_text h)
header_text-All h o = All-append InLine h.name _ o.name_line (
  λ e. omega (arith, e),
  (
    λ e. omega (arith, e),
    All-append InLine h.value (13 ∷ []) o.value_line (λ e. omega (arith, e), tt),
  ),
)

header_text-cons : (h : Header) → (c : ℕ) × (cs : Bytes) × (header_text h ≡ c ∷ cs)
header_text-cons h =
    elim h.name
      as (λ n.
        (c : ℕ) × (cs : Bytes) × (n ++ (name_value_separator ++ (h.value ++ 13 ∷ [])) ≡ c ∷ cs)) [
          | [] ↦ (b':', 32 ∷ (h.value ++ 13 ∷ []), refl)
          | c ∷ cs ↦ (c, cs ++ (name_value_separator ++ (h.value ++ 13 ∷ [])), refl)
        ]

longer_ne : (s : Bytes) (c : ℕ) (t : Bytes) → str_eq (s ++ b':' ∷ c ∷ t) (13 ∷ []) ≡ false
unfolding str_eq
longer_ne [] c t = ground arith
longer_ne (d ∷ []) c t = ground arith
longer_ne (d ∷ e ∷ s) c t = ground arith

header_text-ne : (h : Header) → str_eq (header_text h) (13 ∷ []) ≡ false
header_text-ne h = longer_ne h.name 32 (h.value ++ 13 ∷ [])

header_text-append :
    (h : Header) (rest : Bytes)
    → h.name ++ (name_value_separator ++ (h.value ++ (crlf ++ rest))) ≡ header_text h ++ 10 ∷ rest
header_text-append h rest =
    ap (λ t. h.name ++ (name_value_separator ++ t))
      (sym (append_assoc h.value (13 ∷ []) (10 ∷ rest)))
    ∙ sym (append_assoc h.name (name_value_separator ++ (h.value ++ 13 ∷ [])) (10 ∷ rest))

getline_text :
    (l rest : Bytes) (c : ℕ) (cs : Bytes)
    → l ≡ c ∷ cs
    → All InLine l
    → getline (stream (l ++ 10 ∷ rest)) ≡ (l, stream rest)
getline_text l rest c cs e h =
    subst (λ m. getline (stream (m ++ 10 ∷ rest)) ≡ (m, stream rest)) (sym e)
      (getline-append c cs rest (subst (All InLine) e h))

header_lines-cons :
    (fuel : ℕ) (l : Bytes) (st t : Stream)
    → getline st ≡ (l, t)
    → t.failed ≡ false
    → str_eq l (13 ∷ []) ≡ false
    → header_lines (suc fuel) st ≡ (header l ∷ (header_lines fuel t).0, (header_lines fuel t).1)
unfolding header_lines
header_lines-cons fuel l st t e f n = rw (e, f, n)

header_lines-end :
    (fuel : ℕ) (l : Bytes) (st t : Stream)
    → getline st ≡ (l, t)
    → str_eq l (13 ∷ []) ≡ true
    → header_lines (suc fuel) st ≡ ([], t.rest)
unfolding header_lines
header_lines-end fuel l st t e n = ground (arith, e, n)

getline-header :
    (h : Header) (rest : Bytes)
    → IsOneLine h
    → getline (stream (h.name ++ (name_value_separator ++ (h.value ++ (crlf ++ rest)))))
      ≡ (header_text h, stream rest)
getline-header h rest o =
    let (c, cs, e) = header_text-cons h in
    ap (λ t. getline (stream t)) (header_text-append h rest)
    ∙ getline_text (header_text h) rest c cs e (header_text-All h o)

pub header_lines-header_buffers :
    (fuel : ℕ) (hs : List Header) (content : Bytes)
    → All IsOneLine hs
    → length hs < fuel
    → header_lines fuel (stream (wire (header_buffers hs ++ crlf ∷ content ∷ [])))
      ≡ (map printed hs, content)
unfolding wire header_buffers
header_lines-header_buffers zero hs content o l = absurd (omega (arith, l))
header_lines-header_buffers (suc fuel) [] content o l = rw (append-nil content) (
    header_lines-end fuel (13 ∷ []) _ (stream content)
      (getline-append 13 [] content (λ e. omega (arith, e), tt)) (str_eq_refl (13 ∷ [])))
header_lines-header_buffers (suc fuel) (h ∷ hs) content (o, os) l =
    let rest = wire (header_buffers hs ++ crlf ∷ content ∷ []) in
    header_lines-cons fuel (header_text h) _ (stream rest) (getline-header h rest o) refl
      (header_text-ne h)
    ∙ ap (λ r. (printed h ∷ r.0, r.1))
        (header_lines-header_buffers fuel hs content os (omega (arith, l)))

pub length-wire :
    (hs : List Header) (tail : List Bytes) → length hs ≤ length (wire (header_buffers hs ++ tail))
unfolding wire header_buffers
length-wire [] tail = omega arith
length-wire (h ∷ hs) tail =
    let rest = wire (header_buffers hs ++ tail) in
    omega (
      arith,
      length-append h.name (name_value_separator ++ (h.value ++ (crlf ++ rest))),
      length-append h.value (crlf ++ rest),
      length-wire hs tail,
    )
