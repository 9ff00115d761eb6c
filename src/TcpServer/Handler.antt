-- ===== src/TcpServer/Handler.antt =====
-- slaves/test/request_handler.cpp. The file system is a parameter: the text of a file that can be
-- opened.
use robotd.Common.{
  ℕ, zero, suc, ◌<◌, ◌≤◌, ◌≡◌, refl, Bytes, true, Option, none, some, [], ◌∷◌, ◌++◌, arith, take,
  drop, length, append_assoc, append-nil, sym, ◌∙◌, ap, ltb, if◌then◌else◌,
}
use robotd.TcpServer.Reply.{ok, not_found, Reply, content_headers, stock_reply}
use robotd.TcpServer.Reply.Stock.{content_length, content_length_lem}

-- `sizeof(buf)`
abbrev pub chunk : ℕ
chunk = 512

-- The loop: a chunk of the file each round, until none is left. A file of `n` bytes takes at most `n`
-- rounds.
unfoldable pub append_chunks : ℕ → Bytes → Bytes → Bytes
append_chunks zero file content = content
append_chunks (suc fuel) file content =
    let more = append_chunks fuel (drop chunk file) (content ++ take chunk file) in
    if ltb 0 (length (take chunk file)) then more else content

-- The path of the file, which is left empty.
abbrev pub full_path : Bytes
full_path = []

-- The value of "Content-Type" is assigned the number 1, which is one byte.
unfoldable pub fill_out : Bytes → Reply → Reply
fill_out file rep =
    let content = append_chunks (suc (length file)) file rep.content in
    record rep { status = ok; content = content; headers = content_headers content (1 ∷ []) }

unfoldable pub handle_request : (Bytes → Option Bytes) → Reply → Reply
handle_request open_file rep = elim (open_file full_path) [
  | none ↦ stock_reply not_found
  | some file ↦ fill_out file rep
]

take-drop : (n : ℕ) (s : Bytes) → take n s ++ drop n s ≡ s
take-drop zero s = refl
take-drop (suc n) [] = refl
take-drop (suc n) (c ∷ s) = ap (λ t. c ∷ t) (take-drop n s)

length-drop : (n : ℕ) (s : Bytes) → length (drop n s) ≤ length s
length-drop zero s = omega arith
length-drop (suc n) [] = omega arith
length-drop (suc n) (c ∷ s) = omega (arith, length-drop n s)

append_chunks-round :
    (fuel : ℕ) (file content : Bytes)
    → ltb 0 (length (take chunk file)) ≡ true
    → append_chunks (suc fuel) file content
      ≡ append_chunks fuel (drop chunk file) (content ++ take chunk file)
unfolding append_chunks
append_chunks-round fuel file content e = rw (append_chunks, e)

append_chunks-end : (fuel : ℕ) (content : Bytes) → append_chunks (suc fuel) [] content ≡ content
unfolding append_chunks
append_chunks-end fuel content = refl

append_chunks-append :
    (fuel : ℕ) (file content : Bytes)
    → length file < fuel
    → append_chunks fuel file content ≡ content ++ file
append_chunks-append zero file content h = absurd (omega (arith, h))
append_chunks-append (suc fuel) [] content h =
    append_chunks-end fuel content ∙ sym (append-nil content)
append_chunks-append (suc fuel) (c ∷ s) content h =
    append_chunks-round fuel (c ∷ s) content (ground arith)
    ∙ append_chunks-append fuel (drop 511 s) (content ++ take chunk (c ∷ s))
        (omega (arith, h, length-drop 511 s))
    ∙ append_assoc content (take chunk (c ∷ s)) (drop 511 s)
    ∙ ap (λ t. content ++ t) (take-drop chunk (c ∷ s))

abbrev pub IsFilled : Reply → Bytes → Type 0
IsFilled r content =
    (r.status ≡ ok) × (r.content ≡ content) × (content_length r.headers ≡ some (length content))

fill_out-IsFilled :
    (file : Bytes) (rep : Reply) → IsFilled (fill_out file rep) (rep.content ++ file)
unfolding fill_out
fill_out-IsFilled file rep =
    let all = append_chunks-append (suc (length file)) file rep.content (omega arith) in
    (refl, all, rw all (content_length_lem (rep.content ++ file) (1 ∷ [])))
