-- ===== src/Master/Backtrace/Frames.antt =====
-- A whole backtrace whose lines have the usual form.
use robotd.Common.Hex.{to_hex}
use robotd.Common.{
  ℕ, ◌++◌, ◌≡◌, refl, Bytes, Bool, true, Option, some, List, [], ◌∷◌, map, arith, All, ap, ◌∙◌,
}
use robotd.Master.Backtrace.{
  Logged, frame, name_or, log_line, log_lines, exits, exit_number, self_debug, signal_line,
  begin_backtrace, end_backtrace, stopped, traced, Fault, report_symbols, finish,
}
use robotd.Master.Backtrace.Parts.{IsPlain, join, frame_pieces, log_line-frame}

pub record Frame : Type 0 where
  pub module_name : Bytes
  pub function : Bytes
  pub offset : Bytes
  pub addr : Bytes

pub record IsFrame (f : Frame) : Type 0 where
  pub plain_module : All IsPlain f.module_name
  pub plain_function : All IsPlain f.function
  pub plain_offset : All IsPlain f.offset
  pub plain_addr : All IsPlain f.addr

-- "module(function+offset) [addr]"
abbrev pub line_of : Frame → Bytes
line_of f = join (frame_pieces f.module_name f.function f.offset f.addr)

module _ (demangle : Bytes → Option Bytes) where
  abbrev pub logged_of : Frame → Logged
  logged_of f = frame f.module_name (name_or (demangle f.function) f.function) f.offset f.addr

  line_of_lem : (f : Frame) → IsFrame f → log_line demangle (line_of f) ≡ logged_of f
  line_of_lem f h =
      log_line-frame f.module_name f.function f.offset f.addr demangle h.plain_module
        h.plain_function h.plain_offset h.plain_addr

  log_lines_nil : log_lines demangle [] ≡ (true, [])
  unfolding log_lines
  log_lines_nil = refl

  log_lines-cons :
      (line m f o a : Bytes) (lines : List Bytes)
      → log_line demangle line ≡ frame m f o a
      → log_lines demangle (line ∷ lines)
        ≡ ((log_lines demangle lines).0, frame m f o a ∷ (log_lines demangle lines).1)
  unfolding log_lines
  log_lines-cons line m f o a lines e = rw (log_lines, e)

  log_lines-map :
      (fs : List Frame)
      → All IsFrame fs
      → log_lines demangle (map line_of fs) ≡ (true, map logged_of fs)
  log_lines-map [] h = log_lines_nil
  log_lines-map (f ∷ fs) (p, h) =
      log_lines-cons (line_of f) _ _ _ _ (map line_of fs) (line_of_lem f p)
      ∙ ap (λ r. (r.0, logged_of f ∷ r.1)) (log_lines-map fs h)

  -- On a fault whose backtrace has two addresses at least and, with the instruction pointer in
  -- place of the second, lines of the form module(function+offset) [addr], with none of the
  -- characters ( + ) [ ] and no zero byte in the parts, the log gets the signal with its
  -- address, all lines but the first in their parts between the two headings, the function
  -- demangled if it can be, and the word Stopped; the process exits with CHILD_NEED_WORK, or
  -- with CHILD_NEED_TERMINATE if DEBUG is set.
  pub self_debug-map :
      (debug : Bool) (f : Fault) (a b : ℕ) (trace : List ℕ) (first : Bytes) (fs : List Frame)
      → f.trace ≡ a ∷ b ∷ trace
      → f.symbols (a ∷ f.error_addr ∷ trace) ≡ some (first ∷ map line_of fs)
      → All IsFrame fs
      → self_debug debug demangle f ≡ (
        exits (exit_number debug),
        signal_line f.signal_text (to_hex 16 f.si_addr)
              ∷ begin_backtrace
              ∷ map traced (map logged_of fs)
            ++ (end_backtrace ∷ stopped ∷ []),
      )
  unfolding self_debug report_symbols finish
  self_debug-map debug f a b trace first fs t e h = rw (t, e, log_lines-map fs h) (ground arith)
