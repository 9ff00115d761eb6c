-- ===== src/Common/Hex.antt =====
-- Numbers as hexadecimal text: `std::hex` behind `std::setfill('0')` and `std::setw`.
use Prim.Native.Nat.{ℕ, zero, suc, ◌+◌, ◌-◌, ◌*◌, ◌/◌, ◌%◌, ◌^◌, ◌<◌, ◌≤◌}
use mathlib.Core.Path.{◌≡◌, refl, ap, ◌∙◌}
use mathlib.Core.Logic.{inl, inr}
use mathlib.Core.List.{[], ◌∷◌}
use native.Mathlib.Omega.{arith}
use robotd.Common.Tests.{ltb, if◌then◌else◌, Bool-cases}
use robotd.Common.Lists.{length}
use robotd.Common.Text.{Bytes}

-- The digit of a number below 16.
abbrev hex_digit : ℕ → ℕ
hex_digit d = if ltb d 10 then b'0' + d else b'a' + (d - 10)

-- One digit each round, the last first; `fuel` above `n` is enough.
hex_from : ℕ → ℕ → Bytes → Bytes
hex_from zero n out = out
hex_from (suc fuel) n out =
    let rest = hex_from fuel (n / 16) (hex_digit (n % 16) ∷ out) in
    if ltb n 16 then hex_digit n ∷ out else rest

-- `n` zeros in front.
fill : ℕ → Bytes → Bytes
fill zero s = s
fill (suc n) s = b'0' ∷ fill n s

-- The text of `n`, filled up to `width` characters.
unfoldable pub to_hex : ℕ → ℕ → Bytes
unfolding hex_from fill
to_hex width n = let s = hex_from (suc n) n [] in fill (width - length s) s

-- What a digit stands for.
abbrev hex_value : ℕ → ℕ
hex_value c = if ltb c b'a' then c - b'0' else 10 + (c - b'a')

hexadecimal_from : ℕ → Bytes → ℕ
hexadecimal_from n [] = n
hexadecimal_from n (c ∷ s) = hexadecimal_from (n * 16 + hex_value c) s

-- The number that hexadecimal digits write.
unfoldable pub hexadecimal : Bytes → ℕ
unfolding hexadecimal_from
hexadecimal s = hexadecimal_from 0 s

hex_value-hex_digit : (d : ℕ) → d < 16 → hex_value (hex_digit d) ≡ d
hex_value-hex_digit d h = ground (arith, h)

hexadecimal_from-hex_from :
    (fuel n : ℕ) (out : Bytes)
    → n < fuel
    → hexadecimal_from 0 (hex_from fuel n out) ≡ hexadecimal_from n out
unfolding hex_from hexadecimal_from
hexadecimal_from-hex_from zero n out h = elim h [ ]
hexadecimal_from-hex_from (suc fuel) n out h = elim (Bool-cases (ltb n 16)) [
  | inl small ↦
      rw small
        (ap (λ k. hexadecimal_from k out) (omega (arith, hex_value-hex_digit n (ground arith))))
  | inr large ↦ rw large (
      hexadecimal_from-hex_from fuel (n / 16) (hex_digit (n % 16) ∷ out) (ground arith)
      ∙ ap (λ k. hexadecimal_from k out)
          (omega (arith, hex_value-hex_digit (n % 16) (omega arith))))
]

hexadecimal_from-fill : (n : ℕ) (s : Bytes) → hexadecimal_from 0 (fill n s) ≡ hexadecimal_from 0 s
unfolding hexadecimal_from fill
hexadecimal_from-fill zero s = refl
hexadecimal_from-fill (suc n) s = hexadecimal_from-fill n s

-- Reading the text of a number gives the number, whatever the width.
pub hexadecimal-to_hex : (width n : ℕ) → hexadecimal (to_hex width n) ≡ n
unfolding hexadecimal to_hex hexadecimal_from
hexadecimal-to_hex width n =
    let s = hex_from (suc n) n [] in
    hexadecimal_from-fill (width - length s) s
    ∙ hexadecimal_from-hex_from (suc n) n [] (omega arith)

length-hex_from :
    (k fuel n : ℕ) (out : Bytes)
    → n < 16 ^ suc k
    → length (hex_from fuel n out) ≤ suc k + length out
unfolding hex_from
length-hex_from k zero n out h = omega arith
length-hex_from zero (suc fuel) n out h = ground (arith, h)
length-hex_from (suc k) (suc fuel) n out h =
    ground (arith, length-hex_from k fuel (n / 16) (hex_digit (n % 16) ∷ out) (omega (arith, h)))

length-fill : (n : ℕ) (s : Bytes) → length (fill n s) ≡ n + length s
unfolding fill
length-fill zero s = omega arith
length-fill (suc n) s = omega (arith, length-fill n s)

-- A number of at most `suc k` digits takes that many characters when it is filled up to them.
pub length-to_hex : (k n : ℕ) → n < 16 ^ suc k → length (to_hex (suc k) n) ≡ suc k
unfolding to_hex
length-to_hex k n h =
    let s = hex_from (suc n) n [] in
    omega (arith, length-fill (suc k - length s) s, length-hex_from k (suc n) n [] h)
