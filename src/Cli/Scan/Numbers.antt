-- ===== src/Cli/Scan/Numbers.antt =====
-- Reading back the number that the daemon writes to its PID file, and finding it in /proc.
use robotd.Common.{
  ℕ, ◌<◌, ◌%◌, ◌^◌, ◌≡◌, refl, ◌∙◌, ap, Bytes, true, some, ◌∷◌, ◌++◌, arith, digits, decimal, ◌↔◌,
  All,
}
use mathlib.Core.Path.{subst}
use robotd.Common.Decimal.{
  to_string, to_string-cons, to_string-All, IsDigit, digits-append, digits-All, decimal-to_string,
}
use robotd.Cli.Scan.{scan_u16, u16_of_digits, clamp, is_process}

-- No sign and no space stands in front of a digit.
scan_u16_digit : (c : ℕ) (s : Bytes) → IsDigit c → scan_u16 (c ∷ s) ≡ u16_of_digits (digits (c ∷ s))
unfolding scan_u16
scan_u16_digit c s h = ground arith

scan_digits :
    (c : ℕ) (s rest : Bytes)
    → All IsDigit (c ∷ s)
    → scan_u16 ((c ∷ s) ++ 10 ∷ rest) ≡ some (clamp (decimal (c ∷ s)) % 2 ^ 16)
unfolding u16_of_digits
scan_digits c s rest h =
    scan_u16_digit c (s ++ 10 ∷ rest) h.0 ∙ ap u16_of_digits (digits-append (c ∷ s) 10 rest h refl)

-- `fscanf` with `%hu` on the line that the daemon printed keeps the low sixteen bits of its number.
pub scan_u16-to_string :
    (p : ℕ) (rest : Bytes) → p < 2 ^ 64 → scan_u16 (to_string p ++ 10 ∷ rest) ≡ some (p % 2 ^ 16)
scan_u16-to_string p rest h =
    let (c, s, e) = to_string-cons p in
    let n : decimal (c ∷ s) ≡ p = rw e at (decimal-to_string p) in
    rw e (
      scan_digits c s rest (subst (All IsDigit) e (to_string-All p))
      ∙ ap (λ n. some (n % 2 ^ 16)) (ground (arith, n)))

-- The name that /proc has for process p is recognised as the number q exactly when p is q.
pub is_process-to_string : (p q : ℕ) → (is_process q (to_string p) ≡ true) ↔ (p ≡ q)
unfolding is_process
is_process-to_string p q =
    let (c, s, e) = to_string-cons p in
    let n : decimal (c ∷ s) ≡ p = rw e at (decimal-to_string p) in
    let d : All IsDigit (c ∷ s) = subst (All IsDigit) e (to_string-All p) in
    let g : decimal (digits (c ∷ s)) ≡ p = ap decimal (digits-All (c ∷ s) d) ∙ n in
    rw e (ground (arith, d.0, g))
