-- ===== src/Master/Backtrace/Parts.antt =====
-- A line of the usual form is taken apart at its brackets.
use robotd.Common.{
  ℕ, zero, suc, ◌+◌, ◌++◌, ◌≡◌, ◌≢◌, refl, Bytes, true, Option, none, some, List, [], ◌∷◌, arith,
  All, length, drop, ap, ◌∙◌, ltb,
}
use robotd.Master.Backtrace.{
  Marks, no_marks, mark, scan, set_nul, c_string, frame, crash, name_or, parts, log_line,
}

-- Neither one of the five characters nor the end of a string.
pub record IsPlain (c : ℕ) : Type 0 where
  pub no_open : c ≢ b'('
  pub no_plus : c ≢ b'+'
  pub no_close : c ≢ b')'
  pub no_left : c ≢ b'['
  pub no_right : c ≢ b']'
  pub no_nul : c ≢ 0

-- Texts, each with the character behind it.
abbrev Pieces : Type 0
Pieces = List (Bytes × ℕ)

abbrev pub join : Pieces → Bytes
join [] = []
join ((s, c) ∷ pieces) = s ++ c ∷ join pieces

-- Where the character behind piece `i` stands.
abbrev position : ℕ → Pieces → ℕ
position i [] = 0
position zero ((s, c) ∷ pieces) = length s
position (suc i) ((s, c) ∷ pieces) = length s + suc (position i pieces)

abbrev nul : ℕ → Pieces → Pieces
nul i [] = []
nul zero ((s, c) ∷ pieces) = (s, 0) ∷ pieces
nul (suc i) (x ∷ pieces) = x ∷ nul i pieces

set_nul-append : (s r : Bytes) (p k : ℕ) → p ≡ length s + k → set_nul p (s ++ r) ≡ s ++ set_nul k r
unfolding set_nul
set_nul-append [] r p k e = ap (λ n. set_nul n r) (omega (arith, e))
set_nul-append (c ∷ s) r zero k e = absurd (omega (arith, e))
set_nul-append (c ∷ s) r (suc p) k e = ap (λ t. c ∷ t) (set_nul-append s r p k (omega (arith, e)))

drop-append : (s r : Bytes) (p k : ℕ) → p ≡ length s + k → drop p (s ++ r) ≡ drop k r
drop-append [] r p k e = ap (λ n. drop n r) (omega (arith, e))
drop-append (c ∷ s) r zero k e = absurd (omega (arith, e))
drop-append (c ∷ s) r (suc p) k e = drop-append s r p k (omega (arith, e))

set_nul-join :
    (i p : ℕ) (pieces : Pieces)
    → p ≡ position i pieces
    → set_nul p (join pieces) ≡ join (nul i pieces)
unfolding set_nul
set_nul-join i p [] e = refl
set_nul-join zero p ((s, c) ∷ pieces) e = set_nul-append s (c ∷ join pieces) p 0 (omega (arith, e))
set_nul-join (suc i) p ((s, c) ∷ pieces) e =
    set_nul-append s (c ∷ join pieces) p (suc (position i pieces)) e
    ∙ ap (λ t. s ++ c ∷ t) (set_nul-join i (position i pieces) pieces refl)

drop-join :
    (i p : ℕ) (pieces : Pieces)
    → p ≡ suc (position i pieces)
    → drop p (join pieces) ≡ join (drop (suc i) pieces)
drop-join i p [] e = rw e refl
drop-join zero p ((s, c) ∷ pieces) e = drop-append s (c ∷ join pieces) p 1 (omega (arith, e))
drop-join (suc i) p ((s, c) ∷ pieces) e =
    drop-append s (c ∷ join pieces) p (suc (suc (position i pieces))) (omega (arith, e))
    ∙ drop-join i (suc (position i pieces)) pieces refl

c_string-append : (s r : Bytes) → All IsPlain s → c_string (s ++ 0 ∷ r) ≡ s
unfolding c_string
c_string-append [] r h = refl
c_string-append (c ∷ s) r (p, h) = ground (arith, p.no_nul, c_string-append s r h)

mark_plain : (c p : ℕ) (m : Marks) → IsPlain c → mark c p m ≡ m
mark_plain c p m h = ground (arith, h.no_open, h.no_plus, h.no_close, h.no_left)

scan-append :
    (s r : Bytes) (p q : ℕ) (m : Marks)
    → All IsPlain s
    → q ≡ p + length s
    → scan p (s ++ r) m ≡ scan q r m
unfolding scan
scan-append [] r p q m h e = ap (λ n. scan n r m) (omega (arith, e))
scan-append (c ∷ s) r p q m (k, h) e =
    ground (arith, k.no_right, mark_plain c p m k, scan-append s r (suc p) q m h (omega (arith, e)))

-- "module(function+offset)"
abbrev pub short_pieces : Bytes → Bytes → Bytes → Pieces
short_pieces module_name function offset =
    (module_name, b'(') ∷ (function, b'+') ∷ (offset, b')') ∷ []

module _ (module_name function offset addr : Bytes) where
  -- "module(function+offset) [addr]", with what stands behind it.
  abbrev pub frame_pieces : Pieces
  frame_pieces =
      (module_name, b'(') ∷ (function, b'+') ∷ (offset, b')') ∷ (32 ∷ [], b'[') ∷ (addr, b']') ∷ []

  abbrev cut_pieces : Pieces
  cut_pieces = (module_name, 0) ∷ (function, 0) ∷ (offset, 0) ∷ (32 ∷ [], 0) ∷ (addr, 0) ∷ []

  abbrev at_name : ℕ
  at_name = length module_name

  abbrev at_offset : ℕ
  at_offset = suc at_name + length function

  abbrev at_end : ℕ
  at_end = suc at_offset + length offset

  abbrev at_addr : ℕ
  at_addr = suc (suc at_end)

  abbrev at_last : ℕ
  at_last = suc at_addr + length addr

  abbrev marks : Option ℕ → Option ℕ → Marks
  marks begin_addr end_addr = record {
    begin_name = some at_name;
    begin_offset = some at_offset;
    end_offset = some at_end;
    begin_addr = begin_addr;
    end_addr = end_addr;
  }

  module _ (hm : All IsPlain module_name) (hf : All IsPlain function)
      (ho : All IsPlain offset) where
    -- The loop up to the closing parenthesis.
    scan-front :
        (rest : Bytes)
        → scan 0 (module_name ++ b'(' ∷ (function ++ b'+' ∷ (offset ++ b')' ∷ rest))) no_marks
          ≡ scan (suc at_end) rest (marks none none)
    unfolding scan
    scan-front rest =
        scan-append module_name _ 0 at_name no_marks hm (omega arith)
        ∙ scan-append function _ (suc at_name) at_offset _ hf refl
        ∙ scan-append offset _ (suc at_offset) at_end _ ho refl

    scan-frame :
        All IsPlain addr → scan 0 (join frame_pieces) no_marks ≡ marks (some at_addr) (some at_last)
    unfolding scan
    scan-frame ha = scan-front _ ∙ scan-append addr _ (suc at_addr) at_last _ ha refl

    scan-short : scan 0 (join (short_pieces module_name function offset)) no_marks ≡ marks none none
    unfolding scan
    scan-short = scan-front []

  cut :
      set_nul at_last
        (set_nul at_addr (set_nul at_end (set_nul at_offset (set_nul at_name (join frame_pieces)))))
      ≡ join cut_pieces
  cut =
      ap (λ s. set_nul at_last (set_nul at_addr (set_nul at_end (set_nul at_offset s))))
        (set_nul-join 0 at_name frame_pieces refl)
      ∙ ap (λ s. set_nul at_last (set_nul at_addr (set_nul at_end s)))
          (set_nul-join 1 at_offset (nul 0 frame_pieces) (omega arith))
      ∙ ap (λ s. set_nul at_last (set_nul at_addr s))
          (set_nul-join 2 at_end (nul 1 (nul 0 frame_pieces)) (omega arith))
      ∙ ap (λ s. set_nul at_last s)
          (set_nul-join 3 at_addr (nul 2 (nul 1 (nul 0 frame_pieces))) (omega arith))
      ∙ set_nul-join 4 at_last (nul 3 (nul 2 (nul 1 (nul 0 frame_pieces)))) (omega arith)

  module _ (demangle : Bytes → Option Bytes) (hm : All IsPlain module_name)
      (hf : All IsPlain function) (ho : All IsPlain offset) where
    parts-frame :
        All IsPlain addr
        → parts demangle at_name at_offset at_end at_addr at_last (join frame_pieces)
          ≡ frame module_name (name_or (demangle function) function) offset addr
    parts-frame ha = rw (
      cut,
      drop-join 0 (suc at_name) cut_pieces refl,
      drop-join 1 (suc at_offset) cut_pieces (omega arith),
      drop-join 3 (suc at_addr) cut_pieces (omega arith),
      c_string-append module_name _ hm,
      c_string-append function _ hf,
      c_string-append offset _ ho,
      c_string-append addr _ ha,
    )

    name_lt_offset : ltb at_name at_offset ≡ true
    name_lt_offset = ground arith

    -- A line of the usual form is logged with its four parts, the name demangled if it can be.
    pub log_line-frame :
        All IsPlain addr
        → log_line demangle (join frame_pieces)
          ≡ frame module_name (name_or (demangle function) function) offset addr
    unfolding log_line
    log_line-frame ha = rw (scan-frame hm hf ho ha, name_lt_offset) (parts-frame ha)

    log_line_no_addr : log_line demangle (join (short_pieces module_name function offset)) ≡ crash
    unfolding log_line
    log_line_no_addr = rw (scan-short hm hf ho, name_lt_offset)

-- A line module(function+offset) with no address behind it makes the fault handler write through a
-- null pointer.
pub log_line-short :
    (module_name function offset : Bytes) (demangle : Bytes → Option Bytes)
    → All IsPlain module_name
    → All IsPlain function
    → All IsPlain offset
    → log_line demangle (join (short_pieces module_name function offset)) ≡ crash
log_line-short module_name function offset demangle hm hf ho =
    log_line_no_addr module_name function offset [] demangle hm hf ho
