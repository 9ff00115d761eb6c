-- ===== src/Master/Backtrace/Address.antt =====
-- The address that a fault accessed stands in the first entry of the log.
use robotd.Common.{◌<◌, ◌^◌, ◌≡◌, refl, Bytes, Bool, Option, some, List, [], ◌∷◌, arith, length}
use robotd.Common.Hex.{to_hex, hexadecimal, hexadecimal-to_hex, length-to_hex}
use robotd.Master.Backtrace.{
  Entry, signal_line, backtrace_error, begin_backtrace, end_backtrace, stopped, traced, Fault,
  finish, report_symbols, self_debug, self_debug_wrapper,
}

-- The entries begin with the text of the signal and sixteen hexadecimal digits that write the address.
abbrev pub IsAddressed : Fault → List Entry → Type 0
IsAddressed f [] = ⊥
IsAddressed f (signal_line text s ∷ rest) =
    (text ≡ f.signal_text) × (hexadecimal s ≡ f.si_addr) × (length s ≡ 16)
IsAddressed f (backtrace_error ∷ rest) = ⊥
IsAddressed f (begin_backtrace ∷ rest) = ⊥
IsAddressed f (end_backtrace ∷ rest) = ⊥
IsAddressed f (stopped ∷ rest) = ⊥
IsAddressed f (traced l ∷ rest) = ⊥

module _ (f : Fault) where
  front_address :
      f.si_addr < 2 ^ 64
      → (rest : List Entry) → IsAddressed f (signal_line f.signal_text (to_hex 16 f.si_addr) ∷ rest)
  front_address h rest = (refl, hexadecimal-to_hex 16 f.si_addr, length-to_hex 15 f.si_addr h)

  -- Once the constructor of the Master process has run, on a fault at an address below 2^64,
  -- however the handler ends, the first entry of the log is the text of the signal with sixteen
  -- hexadecimal digits that write the address.
  pub self_debug_wrapper-IsAddressed :
      {M : Type 0}
      → (debug : Bool) (demangle : Bytes → Option Bytes) (me : M) → f.si_addr < 2 ^ 64
      → IsAddressed f (self_debug_wrapper debug demangle (some me) f).1
  unfolding self_debug_wrapper self_debug report_symbols finish
  self_debug_wrapper-IsAddressed debug demangle me h = ground (arith, front_address h)
