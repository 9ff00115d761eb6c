-- ===== src/TcpServer/Client/Fuel.antt =====
-- The loop over the header lines ends: the number of rounds that Client gives it is enough.
use robotd.Common.{
  ℕ, zero, suc, ◌<◌, ◌≤◌, ◌≡◌, refl, ◌++◌, Bytes, true, false, ◌||◌, List, [], ◌∷◌, arith, length,
  str_eq, inl, inr, Bool-cases,
}
use robotd.TcpServer.Client.{
  Stream, stream, split_line, extract_line, getline, header_lines, Output, header, blank, rest_of,
  Client, reading_content, handle_read_headers, read_headers,
}

length-split_line : (s : Bytes) → length (split_line s).1 ≤ length s
unfolding split_line
length-split_line [] = omega arith
length-split_line (c ∷ s) = ground (arith, length-split_line s)

extract_line_shorter :
    (s : Bytes) → (extract_line s).1.failed ≡ false → length (extract_line s).1.rest < length s
unfolding split_line
extract_line_shorter [] h = ground arith
extract_line_shorter (c ∷ s) h = ground (arith, length-split_line s)

-- A line that was read takes a byte.
getline_shorter :
    (st : Stream) → (getline st).1.failed ≡ false → length (getline st).1.rest < length st.rest
unfolding getline
getline_shorter st h = ground (arith, extract_line_shorter st.rest)

-- The loop, without a bound on its rounds: what it prints, and what it leaves, when it ends.
pub data Loop : Stream → List Output → Bytes → Type 0 where
  stops :
      {st : Stream}
      → (getline st).1.failed || str_eq (getline st).0 (13 ∷ []) ≡ true
      → Loop st [] (getline st).1.rest
  turns :
      {st : Stream} {lines : List Output} {rest : Bytes}
      → (getline st).1.failed || str_eq (getline st).0 (13 ∷ []) ≡ false
      → Loop (getline st).1 lines rest
      → Loop st (header (getline st).0 ∷ lines) rest

round-stops :
    (fuel : ℕ) (st : Stream)
    → (getline st).1.failed || str_eq (getline st).0 (13 ∷ []) ≡ true
    → header_lines (suc fuel) st ≡ ([], (getline st).1.rest)
unfolding header_lines
round-stops fuel st h = rw h

round-turns :
    (fuel : ℕ) (st : Stream)
    → (getline st).1.failed || str_eq (getline st).0 (13 ∷ []) ≡ false
    → let (lines, rest) = header_lines fuel (getline st).1 in
      header_lines (suc fuel) st ≡ (header (getline st).0 ∷ lines, rest)
unfolding header_lines
round-turns fuel st h = rw h

getline_fine :
    (st : Stream)
    → (getline st).1.failed || str_eq (getline st).0 (13 ∷ []) ≡ false
    → (getline st).1.failed ≡ false
getline_fine st h = let (line, t) = getline st in ground arith

-- The rounds are enough once there is one more than bytes.
header_lines-Loop :
    (fuel : ℕ) (st : Stream)
    → length st.rest < fuel
    → let (lines, rest) = header_lines fuel st in Loop st lines rest
header_lines-Loop zero st h = absurd (omega (arith, h))
header_lines-Loop (suc fuel) st h =
    elim (Bool-cases ((getline st).1.failed || str_eq (getline st).0 (13 ∷ []))) [
      | inl stop ↦ rw (round-stops fuel st stop) (stops stop)
      | inr turn ↦ rw (round-turns fuel st turn) (
          turns turn (
            header_lines-Loop fuel (getline st).1
              (omega (arith, h, getline_shorter st (getline_fine st turn)))))
    ]

-- The loop over the header lines ends for every buffer: handle_read_headers, called without an
-- error, prints the lines that the loop without a bound on its rounds prints, an empty line,
-- and what the loop leaves, if that is not empty.
pub handle_read_headers-Loop :
    (c : Client)
    → (lines : List Output) × (rest : Bytes) × Loop (stream c.response) lines rest
      × (handle_read_headers false c ≡ record c {
        response = [];
        pending = reading_content;
        output = c.output ++ (lines ++ blank ∷ rest_of rest);
      })
unfolding handle_read_headers read_headers
handle_read_headers-Loop c =
    let (lines, rest) = header_lines (suc (length c.response)) (stream c.response) in
    (
      lines,
      rest,
      header_lines-Loop (suc (length c.response)) (stream c.response) (omega arith),
      refl,
    )
