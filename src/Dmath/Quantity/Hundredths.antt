-- ===== src/Dmath/Quantity/Hundredths.antt =====
-- Numbers with two decimals as an instance of the calls of GMP, which shows that the laws of
-- `IsQuantity` can hold. A number is its hundredths; quotients are rounded down.
pub mod Laws
use native.Mathlib.Nat.{
  div-mul-le_self, div-div-eq-div-mul, le-div_iff_mul-le, le_of_mul-le-mul_right, mul-le-mul_right,
  le_antisymm, div-le_self, div-add-mod', div-eq_of_eq-mul_left,
}
use d_barter.Base.{
  ℕ, zero, suc, ◌+◌, ◌*◌, ◌/◌, ◌%◌, ◌≤◌, ◌<◌, ◌≡◌, ◌≢◌, ◌↔◌, refl, sym, ap, ◌∙◌, subst, Bool, true,
  false, Option, none, some, List, [], ◌∷◌, ◌++◌, ◌==◌, ==_iff, if◌then◌else◌, ltb, leb, ◌&&◌, inl,
  inr, Bool-cases, arith, All, length, tens,
}
use d_barter.Base.Bytes.{Bytes, codes, is_digit, read_digits}
use d_barter.Base.Int.{ℤ, pos, negsuc, ◌+ℤ◌, ◌-ℤ◌, -ℤ-+ℤ}
use d_barter.Bom.Text.{digits}
use d_barter.Bom.Text.Numbers.{read_digits-digits, AllDigits, digits-AllDigits}
use d_barter.Dmath.Quantity.{Quantity, IsQuantity, IsDigits, blanks}

abbrev opposite : ℤ → ℤ
opposite (pos zero) = pos zero
opposite (pos (suc i)) = negsuc i
opposite (negsuc i) = pos (suc i)

abbrev is_zero : ℤ → Bool
is_zero (pos i) = i == 0
is_zero (negsuc i) = false

abbrev is_neg : ℤ → Bool
is_neg (pos i) = false
is_neg (negsuc i) = true

abbrev tenth : ℤ → ℤ
tenth (pos i) = pos (i / 10)
tenth (negsuc i) = negsuc (i / 10)

abbrev of_int : ℤ → ℤ
of_int (pos i) = pos (i * 100)
of_int (negsuc i) = negsuc (i * 100 + 99)

abbrev size : ℤ → ℕ
size (pos i) = i
size (negsuc i) = suc i

abbrev frac : ℤ → ℤ → ℤ
frac (pos a) (pos b) = pos (a * 100 / b)
frac (negsuc a) (pos b) = opposite (pos (suc a * 100 / b))
frac a (negsuc b) = pos 0

-- A fraction of hundred in lowest terms: the first of the divisors of 100 that divides it is taken
-- out of both.
abbrev taken_out : List (ℕ × ℕ) → ℕ → ℕ × ℕ
taken_out [] i = (i, 100)
taken_out ((p, q) ∷ l) i = if i % p == 0 then (i / p, q) else taken_out l i

abbrev divisors : List (ℕ × ℕ)
divisors = (100, 1) ∷ (50, 2) ∷ (25, 4) ∷ (20, 5) ∷ (10, 10) ∷ (5, 20) ∷ (4, 25) ∷ (2, 50) ∷ []

abbrev lowest : ℕ → ℕ × ℕ
lowest i = taken_out divisors i

abbrev write : ℕ → Bytes
write i = if i == 0 then codes "0" else digits (suc i) i []

abbrev skip_blanks : Bytes → Bytes
skip_blanks [] = []
skip_blanks (c ∷ s) = if c == 32 then skip_blanks s else c ∷ s

abbrev all_digits : Bytes → Bool
all_digits [] = true
all_digits (c ∷ s) = is_digit c && all_digits s

abbrev parse : Bytes → Option ℤ
parse [] = none
parse (c ∷ s) =
    if c == b'-'
    then (if all_digits s then some (opposite (pos (read_digits 0 s))) else none)
    else if all_digits (c ∷ s)
    then some (pos (read_digits 0 (c ∷ s)))
    else none

abbrev pub hundredths : Quantity
hundredths = record {
  Q = ℤ;
  zero = pos 0;
  add = ◌+ℤ◌;
  sub = ◌-ℤ◌;
  neg = opposite;
  div_ten = tenth;
  is_zero = is_zero;
  is_neg = is_neg;
  of_int = of_int;
  trunc = λ q. size q / 100;
  num = λ q. (lowest (size q)).0;
  den = λ q. (lowest (size q)).1;
  frac = frac;
  get_str = write;
  set_str = λ s. parse (skip_blanks s);
}
