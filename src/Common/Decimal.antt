-- ===== src/Common/Decimal.antt =====
-- Numbers as decimal text: `%u`, `std::to_string` and `lexical_cast<std::string>`.
use Prim.Native.Nat.{ℕ, zero, suc, ◌+◌, ◌/◌, ◌%◌, ◌<◌}
use mathlib.Core.Path.{◌≡◌, refl, ap, ◌∙◌}
use mathlib.Core.Logic.{inl, inr}
use mathlib.Core.Bool.{true, false}
use mathlib.Core.List.{[], ◌∷◌, ◌++◌}
use native.Mathlib.Omega.{arith}
use robotd.Common.Tests.{ltb, if◌then◌else◌, Bool-cases}
use robotd.Common.Lists.{All}
use robotd.Common.Text.{Bytes, decimal, decimal_from, is_digit, digits, after_digits}

-- One digit each round, the last first; `fuel` above `n` is enough.
print_from : ℕ → ℕ → Bytes → Bytes
print_from zero n out = out
print_from (suc fuel) n out =
    let rest = print_from fuel (n / 10) ((b'0' + n % 10) ∷ out) in
    if ltb n 10 then (b'0' + n) ∷ out else rest

unfoldable pub to_string : ℕ → Bytes
unfolding print_from
to_string n = print_from (suc n) n []

decimal_from-print_from :
    (fuel n : ℕ) (out : Bytes)
    → n < fuel
    → decimal_from 0 (print_from fuel n out) ≡ decimal_from n out
unfolding print_from decimal_from
decimal_from-print_from zero n out h = elim h [ ]
decimal_from-print_from (suc fuel) n out h = elim (Bool-cases (ltb n 10)) [
  | inl small ↦ rw small (ap (λ k. decimal_from k out) (omega arith))
  | inr large ↦ rw large (
      decimal_from-print_from fuel (n / 10) ((b'0' + n % 10) ∷ out) (ground arith)
      ∙ ap (λ k. decimal_from k out) (omega arith))
]

-- Reading the text of a number gives the number.
pub decimal-to_string : (n : ℕ) → decimal (to_string n) ≡ n
unfolding decimal to_string decimal_from
decimal-to_string n = decimal_from-print_from (suc n) n [] (omega arith)

abbrev pub IsDigit : ℕ → Type 0
IsDigit c = is_digit c ≡ true

IsDigit-of_lt : (d : ℕ) → d < 10 → IsDigit (b'0' + d)
IsDigit-of_lt d h = ground arith

print_from-All : (fuel n : ℕ) (out : Bytes) → All IsDigit out → All IsDigit (print_from fuel n out)
unfolding print_from
print_from-All zero n out h = h
print_from-All (suc fuel) n out h = elim (Bool-cases (ltb n 10)) [
  | inl small ↦ rw small (IsDigit-of_lt n (ground arith), h)
  | inr large ↦ rw large (print_from-All fuel (n / 10) _ (IsDigit-of_lt (n % 10) (omega arith), h))
]

-- The text of a number holds digits alone.
pub to_string-All : (n : ℕ) → All IsDigit (to_string n)
unfolding to_string
to_string-All n = print_from-All (suc n) n [] tt

print_from_more :
    (fuel n d : ℕ) (out : Bytes) → (c : ℕ) × (s : Bytes) × (print_from fuel n (d ∷ out) ≡ c ∷ s)
unfolding print_from
print_from_more zero n d out = (d, out, refl)
print_from_more (suc fuel) n d out = elim (Bool-cases (ltb n 10)) [
  | inl small ↦ (b'0' + n, d ∷ out, rw small)
  | inr large ↦ rw large (print_from_more fuel (n / 10) _ (d ∷ out))
]

-- The text of a number has a first digit.
pub to_string-cons : (n : ℕ) → (c : ℕ) × (s : Bytes) × (to_string n ≡ c ∷ s)
unfolding to_string
to_string-cons n = elim (Bool-cases (ltb n 10)) [
  | inl small ↦ (b'0' + n, [], rw small)
  | inr large ↦ rw large (print_from_more n (n / 10) _ [])
]

pub digits-append :
    (s : Bytes) (c : ℕ) (rest : Bytes)
    → All IsDigit s
    → is_digit c ≡ false
    → digits (s ++ c ∷ rest) ≡ s
unfolding digits
digits-append [] c rest h stop = rw stop
digits-append (d ∷ s) c rest (p, h) stop = rw (p, digits-append s c rest h stop)

pub digits-All : (s : Bytes) → All IsDigit s → digits s ≡ s
unfolding digits
digits-All [] h = refl
digits-All (d ∷ s) (p, h) = rw (p, digits-All s h)

pub after_digits-append :
    (s : Bytes) (c : ℕ) (rest : Bytes)
    → All IsDigit s
    → is_digit c ≡ false
    → after_digits (s ++ c ∷ rest) ≡ c ∷ rest
unfolding after_digits
after_digits-append [] c rest h stop = rw stop
after_digits-append (d ∷ s) c rest (p, h) stop = rw (p, after_digits-append s c rest h stop)

pub after_digits-All : (s : Bytes) → All IsDigit s → after_digits s ≡ []
unfolding after_digits
after_digits-All [] h = refl
after_digits-All (d ∷ s) (p, h) = rw (p, after_digits-All s h)
