-- ===== src/Loader/Size/Laws.antt =====
-- What `size_parse` makes of a text.
use robotd.Common.{
  ℕ, ◌+◌, ◌-◌, ◌*◌, ◌%◌, ◌^◌, ◌<◌, ◌≤◌, ◌≡◌, ◌≢◌, refl, ◌⊎◌, inl, inr, Bytes, true, false, ◌||◌,
  Option, none, some, [], ◌∷◌, ◌++◌, ◌==◌, ltb, if◌then◌else◌, arith, Bool-cases, Option-cases,
  ltb→lt, digits, after_digits, is_digit,
}
use robotd.Common.Decimal.{
  to_string, to_string-All, digits-append, digits-All, decimal-to_string, after_digits-append,
  after_digits-All,
}
use robotd.Loader.Size.{
  SizeError, zero_size, bad_size, size_parse, sized, scaled, match_unit, is_unit, atoi, int_of_long,
}

-- The bytes in a unit.
abbrev pub factor : ℕ → ℕ
factor c = if c == b'k' || c == b'K' then 1024 else 1024 * 1024

-- What is left of a number after `atoi`: a small one, or a negative `int`.
abbrev IsCast : ℕ → Type 0
IsCast n = (n < 2 ^ 31) ⊎ ((2 ^ 64 - 2 ^ 31 ≤ n) × (n < 2 ^ 64))

int_of_long-IsCast : (n : ℕ) → IsCast (int_of_long n)
int_of_long-IsCast n = elim (Bool-cases (ltb (n % 2 ^ 32) (2 ^ 31))) [
  | inl small ↦ rw small (inl (ltb→lt _ _ small))
  | inr large ↦ rw large (inr (ground arith, omega arith))
]

atoi-IsCast : (text : Bytes) → IsCast (atoi text)
unfolding atoi
atoi-IsCast text = int_of_long-IsCast _

kilo_pos : (n : ℕ) → n ≢ 0 → IsCast n → 0 < (n * 1024) % 2 ^ 64
kilo_pos n h cast = omega arith

mega_pos : (n : ℕ) → n ≢ 0 → IsCast n → 0 < (n * (1024 * 1024)) % 2 ^ 64
mega_pos n h cast = omega arith

-- The three outcomes: a size, a refused zero, or a refused text that leaves the variable alone.
abbrev pub Sized : Option SizeError × ℕ → ℕ → Type 0
Sized (e, n) old =
    ((e ≡ none) × (0 < n) × (n < 2 ^ 64))
    ⊎ ((e ≡ some zero_size) × (n ≡ 0))
    ⊎ ((e ≡ some bad_size) × (n ≡ old))

scaled-Sized : (c n old : ℕ) → IsCast n → (c ≡ 0) ⊎ (is_unit c ≡ true) → Sized (scaled c n) old
unfolding scaled is_unit
scaled-Sized c n old cast unit = ground (arith, kilo_pos n, mega_pos n)

match_unit_lem : (text : Bytes) (c : ℕ) → match_unit text ≡ some c → (c ≡ 0) ⊎ (is_unit c ≡ true)
unfolding match_unit
match_unit_lem text c h = ground arith

-- Whatever the text, size_parse leaves the size as it was or 0 and reports an error, or reports
-- none and leaves a size above 0.
pub size_parse-Sized : (text : Bytes) (old : ℕ) → Sized (size_parse text old) old
unfolding size_parse sized
size_parse-Sized text old = elim (Option-cases (match_unit (after_digits text))) [
  | inl e ↦ rw e (inr (inr (refl, refl)))
  | inr (c, e) ↦
      rw e
        (scaled-Sized c _ old (atoi-IsCast (digits text)) (match_unit_lem (after_digits text) c e))
]

atoi-to_string : (n : ℕ) → n < 2 ^ 31 → atoi (to_string n) ≡ n
unfolding atoi
atoi-to_string n h = ground (arith, decimal-to_string n)

atoi_negative : (n : ℕ) → 2 ^ 31 ≤ n → n < 2 ^ 32 → atoi (to_string n) ≡ n + (2 ^ 64 - 2 ^ 32)
unfolding atoi
atoi_negative n l u = ground (arith, decimal-to_string n)

unit_ne_digit : (c : ℕ) → is_unit c ≡ true → is_digit c ≡ false
unfolding is_unit
unit_ne_digit c h = ground arith

match_unit_one : (c : ℕ) → is_unit c ≡ true → match_unit (c ∷ []) ≡ some c
unfolding match_unit
match_unit_one c h = ground arith

scaled_unit : (c n : ℕ) → 0 < n → n < 2 ^ 31 → is_unit c ≡ true → scaled c n ≡ (none, n * factor c)
unfolding scaled is_unit
scaled_unit c n l u h = ground arith

match_unit_nil : match_unit [] ≡ some 0
unfolding match_unit
match_unit_nil = refl

scaled_zero : (n : ℕ) → 0 < n → scaled 0 n ≡ (none, n)
unfolding scaled
scaled_zero n l = ground arith

-- The text of a number from 1 to 2^31 - 1 is read as that number, and with a unit letter behind
-- it as that number times the unit.
pub size_parse-to_string :
    (n old c : ℕ)
    → 0 < n
    → n < 2 ^ 31
    → is_unit c ≡ true
    → (size_parse (to_string n) old ≡ (none, n))
      × (size_parse (to_string n ++ c ∷ []) old ≡ (none, n * factor c))
unfolding size_parse sized
size_parse-to_string n old c l u unit =
    let d = to_string-All n in
    let stop = unit_ne_digit c unit in
    (
      rw
          (
            after_digits-All (to_string n) d,
            match_unit_nil,
            digits-All (to_string n) d,
            atoi-to_string n u,
          )
          (scaled_zero n l),
      rw
          (
            after_digits-append (to_string n) c [] d stop,
            match_unit_one c unit,
            digits-append (to_string n) c [] d stop,
            atoi-to_string n u,
          )
          (scaled_unit c n l u unit),
    )

-- The text of a number from 2^31 to 2^32 - 1 is accepted without an error as the number plus
-- 2^64 - 2^32.
pub size_parse_overflow :
    (n old : ℕ)
    → 2 ^ 31 ≤ n
    → n < 2 ^ 32
    → size_parse (to_string n) old ≡ (none, n + (2 ^ 64 - 2 ^ 32))
unfolding size_parse sized match_unit scaled
size_parse_overflow n old l u =
    let d = to_string-All n in
    rw (after_digits-All (to_string n) d, digits-All (to_string n) d, atoi_negative n l u)
      (ground arith)
