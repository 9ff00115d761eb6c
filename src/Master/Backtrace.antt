-- ===== src/Master/Backtrace.antt =====
-- `self_debug` of daemon/master_impl.hpp: how a line of `backtrace_symbols`, such as
-- "./module(function+0x15c) [0x8048a6d]", is taken apart. Pointers into the line are positions.
pub mod Parts
pub mod Frames
pub mod Address
use robotd.Definitions.{child_need_terminate, child_need_work}
use robotd.Common.{
  ℕ, zero, suc, ◌+◌, ◌++◌, Bytes, codes, Bool, true, false, ◌&&◌, Option, none, some, List, [], ◌∷◌,
  ◌==◌, ltb, if◌then◌else◌, drop, map, length,
}
use robotd.Common.Hex.{to_hex}

pub record Marks : Type 0 where
  pub begin_name : Option ℕ
  pub begin_offset : Option ℕ
  pub end_offset : Option ℕ
  pub begin_addr : Option ℕ
  pub end_addr : Option ℕ

abbrev pub no_marks : Marks
no_marks = record {
  begin_name = none;
  begin_offset = none;
  end_offset = none;
  begin_addr = none;
  end_addr = none;
}

abbrev pub is_set : Option ℕ → Bool
is_set none = false
is_set (some p) = true

-- The chain of tests on a character other than the closing bracket.
abbrev pub mark : ℕ → ℕ → Marks → Marks
mark c p m =
    if c == b'('
    then record m { begin_name = some p }
    else if c == b'+'
    then record m { begin_offset = some p }
    else if c == b')' && is_set m.begin_offset
    then record m { end_offset = some p }
    else if c == b'['
    then record m { begin_addr = some p }
    else m

-- The loop from position `p` on. It stops at the first closing bracket. (The first test that holds
-- decides, and no other one holds for that bracket.)
unfoldable pub scan : ℕ → Bytes → Marks → Marks
scan p [] m = m
scan p (c ∷ s) m =
    let rest = scan (suc p) s (mark c p m) in
    if c == b']' then record m { end_addr = some p } else rest

-- `*p = '\0'`
unfoldable pub set_nul : ℕ → Bytes → Bytes
set_nul p [] = []
set_nul zero (c ∷ s) = 0 ∷ s
set_nul (suc p) (c ∷ s) = c ∷ set_nul p s

-- The C string at the front of an array.
unfoldable pub c_string : Bytes → Bytes
c_string [] = []
c_string (c ∷ s) = let rest = c_string s in if c == 0 then [] else c ∷ rest

-- What the log gets: the whole line, or module, name, offset and address; or the end of the process, for
-- a write through a null pointer.
pub data Logged : Type 0 where
  whole : Bytes → Logged
  frame : Bytes → Bytes → Bytes → Bytes → Logged
  crash : Logged

-- `__cxa_demangle`, where `none` is a status other than 0.
abbrev pub name_or : Option Bytes → Bytes → Bytes
name_or none name = name
name_or (some d) name = d

module _ (demangle : Bytes → Option Bytes) where
  -- The strings, once the five characters are overwritten.
  abbrev pub parts : ℕ → ℕ → ℕ → ℕ → ℕ → Bytes → Logged
  parts name offset end addr last line =
      let s = set_nul last (set_nul addr (set_nul end (set_nul offset (set_nul name line)))) in
      let function = c_string (drop (suc name) s) in
      frame (c_string s) (name_or (demangle function) function) (c_string (drop (suc offset) s))
        (c_string (drop (suc addr) s))

  -- The brackets are not among the pointers that are tested.
  abbrev pub overwrite : ℕ → ℕ → ℕ → Option ℕ → Option ℕ → Bytes → Logged
  overwrite name offset end none last line = crash
  overwrite name offset end (some addr) none line = crash
  overwrite name offset end (some addr) (some last) line = parts name offset end addr last line

  abbrev pub decide : Option ℕ → Option ℕ → Option ℕ → Marks → Bytes → Logged
  decide none offset end m line = whole line
  decide (some name) none end m line = whole line
  decide (some name) (some offset) none m line = whole line
  decide (some name) (some offset) (some end) m line =
      if ltb name offset then overwrite name offset end m.begin_addr m.end_addr line else whole line

  unfoldable pub log_line : Bytes → Logged
  log_line line =
      let m = scan 0 line no_marks in decide m.begin_name m.begin_offset m.end_offset m line

  -- The lines in turn, up to a crash: whether there was none, and what the log got.
  unfoldable pub log_lines : List Bytes → Bool × List Logged
  log_lines [] = (true, [])
  log_lines (line ∷ lines) =
      let first = log_line line in
      let rest = log_lines lines in
      elim first [
        | crash ↦ (false, [])
        | whole text ↦ (rest.0, whole text ∷ rest.1)
        | frame m f o a ↦ (rest.0, frame m f o a ∷ rest.1)
      ]

-- With DEBUG the process asks not to be started again.
abbrev pub exit_number : Bool → ℕ
exit_number debug = if debug then child_need_terminate else child_need_work

-- The process exits, or is ended by the write through the null pointer.
pub data Death : Type 0 where
  exits : ℕ → Death
  killed : Death

-- What else the log gets on a fault: the signal's text with the address that was accessed, and the
-- lines around those of the backtrace.
pub data Entry : Type 0 where
  signal_line : Bytes → Bytes → Entry
  backtrace_error begin_backtrace end_backtrace stopped : Entry
  traced : Logged → Entry

-- What the handler finds: the text of the signal, `si_addr`, the instruction pointer, the addresses that
-- `backtrace` stores, at most 16, and the lines of `backtrace_symbols`, where `none` is a null pointer.
pub record Fault : Type 0 where
  pub signal_text : Bytes
  pub si_addr : ℕ
  pub error_addr : ℕ
  pub trace : List ℕ
  pub symbols : List ℕ → Option (List Bytes)

-- `trace[1] = error_addr`. Behind the addresses that were stored it changes nothing that is read.
abbrev pub set_second : ℕ → List ℕ → List ℕ
set_second e [] = []
set_second e (a ∷ []) = a ∷ []
set_second e (a ∷ b ∷ trace) = a ∷ e ∷ trace

-- The end of the handler, once the lines are logged or a write through a null pointer has killed it.
finish : Bool → List Entry → Bool × List Logged → Death × List Entry
finish debug front (true, logged) = (
  exits (exit_number debug),
  front ++ (begin_backtrace ∷ map traced logged ++ (end_backtrace ∷ stopped ∷ [])),
)
finish debug front (false, logged) = (killed, front ++ (begin_backtrace ∷ map traced logged))

-- The lines, of which there are as many as addresses. That of this function itself, the first, is left
-- out.
report_symbols :
    Bool → (Bytes → Option Bytes) → List Entry → Option (List Bytes) → Death × List Entry
unfolding finish
report_symbols debug demangle front none = (exits (exit_number debug), front ++ (stopped ∷ []))
report_symbols debug demangle front (some lines) =
    finish debug front (log_lines demangle (drop 1 lines))

unfoldable pub self_debug : Bool → (Bytes → Option Bytes) → Fault → Death × List Entry
unfolding report_symbols
self_debug debug demangle f =
    let front = signal_line f.signal_text (to_hex 16 f.si_addr) ∷ [] in
    if length f.trace == 0
    then (exits child_need_work, front ++ (backtrace_error ∷ []))
    else report_symbols debug demangle front (f.symbols (set_second f.error_addr f.trace))

-- The handler that is installed. `me` is the Master of this process, a null pointer until its
-- constructor has run.
unfoldable pub self_debug_wrapper :
    {M : Type 0} → Bool → (Bytes → Option Bytes) → Option M → Fault → Death × List Entry
self_debug_wrapper debug demangle none f = (killed, [])
self_debug_wrapper debug demangle (some me) f = self_debug debug demangle f
