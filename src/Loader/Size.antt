-- ===== src/Loader/Size.antt =====
-- `size_parse` of loader/loader_impl.hpp: a size such as "40k".
pub mod Laws
use robotd.Common.{
  ℕ, ◌+◌, ◌-◌, ◌*◌, ◌%◌, ◌^◌, Bytes, ℤ, pos, negsuc, Bool, true, false, ◌||◌, Option, none, some,
  List, [], ◌∷◌, ◌==◌, ltb, if◌then◌else◌, digits, after_digits, decimal,
}
use robotd.Definitions.{child_need_work}

-- What a failed load returns: CHILD_NEED_WORK once the log file is in use, and -1 before.
abbrev pub failure : Bool → ℤ
failure true = pos child_need_work
failure false = negsuc 0

-- `unsigned long = atoi(digits)`: `strtol` stops at LONG_MAX, its low 32 bits are an `int`, and a
-- negative `int` is taken modulo 2^64.
abbrev pub int_of_long : ℕ → ℕ
int_of_long n = let low = n % 2 ^ 32 in if ltb low (2 ^ 31) then low else low + (2 ^ 64 - 2 ^ 32)

unfoldable pub atoi : Bytes → ℕ
atoi s = let n = decimal s in int_of_long (if ltb n (2 ^ 63) then n else 2 ^ 63 - 1)

-- The match of `^([[:digit:]]*)([kKmM]?)$`: both groups, the second as its first byte, 0 if empty.
unfoldable pub is_unit : ℕ → Bool
is_unit c = (c == b'k' || c == b'K') || (c == b'm' || c == b'M')

unfoldable pub match_unit : Bytes → Option ℕ
unfolding is_unit
match_unit [] = some 0
match_unit (c ∷ []) = if is_unit c then some c else none
match_unit (c ∷ d ∷ s) = none

-- The `switch` on the second group. `none` is the default branch.
scale : ℕ → ℕ → Option ℕ
scale c n =
    if c == b'k' || c == b'K'
    then some ((n * 1024) % 2 ^ 64)
    else if c == b'm' || c == b'M'
    then some ((n * (1024 * 1024)) % 2 ^ 64)
    else if c == 0
    then some n
    else none

-- Why a size is refused.
pub data SizeError : Type 0 where
  regex_lies zero_size bad_size : SizeError

-- The error, if any, and the new value of the variable.
unfoldable pub scaled : ℕ → ℕ → Option SizeError × ℕ
unfolding scale
scaled c n =
    if n == 0
    then (some zero_size, n)
    else elim (scale c n) [ none ↦ (some regex_lies, n) | some m ↦ (none, m) ]

unfoldable pub sized : Option ℕ → Bytes → ℕ → Option SizeError × ℕ
sized none text old = (some bad_size, old)
sized (some c) text old = scaled c (atoi (digits text))

unfoldable pub size_parse : Bytes → ℕ → Option SizeError × ℕ
size_parse text old = sized (match_unit (after_digits text)) text old
