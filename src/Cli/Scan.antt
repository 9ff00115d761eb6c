-- ===== src/Cli/Scan.antt =====
-- What daemon/cli_parser.cpp reads from files and from /proc: `fscanf` with `%hu` and `%s`, and
-- the search for a process by its number.
pub mod Numbers
use robotd.Common.{
  ℕ, ◌-◌, ◌%◌, ◌^◌, Bytes, Bool, true, false, ◌&&◌, Option, none, some, List, [], ◌∷◌, ◌==◌, ltb,
  if◌then◌else◌, is_digit, digits, decimal, skip_space, word,
}

-- `strtoul` gives ULONG_MAX for what does not fit.
abbrev clamp : ℕ → ℕ
clamp n = if ltb n (2 ^ 64) then n else 2 ^ 64 - 1

-- The digits of `%hu`, stored in sixteen bits. `none`: no digit, so nothing is read.
u16_of_digits : Bytes → Option ℕ
u16_of_digits [] = none
u16_of_digits (c ∷ s) = some (clamp (decimal (c ∷ s)) % 2 ^ 16)

negate_u16 : Option ℕ → Option ℕ
negate_u16 none = none
negate_u16 (some n) = some ((2 ^ 16 - n) % 2 ^ 16)

scan_signed : Bytes → Option ℕ
unfolding u16_of_digits negate_u16
scan_signed [] = none
scan_signed (c ∷ s) =
    if c == b'-'
    then negate_u16 (u16_of_digits (digits s))
    else if c == b'+'
    then u16_of_digits (digits s)
    else u16_of_digits (digits (c ∷ s))

-- `fscanf(exist, "%" SCNu16, &pid_exists)`
unfoldable pub scan_u16 : Bytes → Option ℕ
unfolding scan_signed skip_space
scan_u16 text = scan_signed (skip_space text)

-- `fscanf(exist_conf, "%s", tmp)`: `[]` if there is no word, which leaves `tmp` empty.
unfoldable pub scan_word : Bytes → Bytes
unfolding skip_space word
scan_word text = word (skip_space text)

-- `isdigit(dp->d_name[0]) && atoi(dp->d_name) == pid_exists`
unfoldable pub is_process : ℕ → Bytes → Bool
is_process pid [] = false
is_process pid (c ∷ s) = is_digit c && decimal (digits (c ∷ s)) == pid

-- The loop over /proc, which stops at the first match.
unfoldable pub find_process : ℕ → List Bytes → Bool
find_process pid [] = false
find_process pid (name ∷ names) = if is_process pid name then true else find_process pid names
