-- ===== src/Dmath/Quantity/Hundredths/Laws.antt =====
-- The laws of the numbers with two decimals.
use native.Mathlib.Nat.{
  div-mul-le_self, div-div-eq-div-mul, le-div_iff_mul-le, le_of_mul-le-mul_right, mul-le-mul_right,
  le_antisymm, div-add-mod', div-eq_of_eq-mul_left,
}
use d_barter.Base.{
  ℕ, zero, suc, ◌+◌, ◌*◌, ◌/◌, ◌%◌, ◌≤◌, ◌<◌, ◌≡◌, refl, sym, ap, ◌∙◌, subst, true, false, some,
  List, [], ◌∷◌, ◌++◌, ◌==◌, ==_iff, if◌then◌else◌, ltb, inl, inr, Bool-cases, arith, All, length,
  tens,
}
use d_barter.Base.Bytes.{Bytes, codes, is_digit, read_digits}
use d_barter.Base.Int.{ℤ, pos, negsuc, ◌+ℤ◌, ◌-ℤ◌, -ℤ-+ℤ}
use d_barter.Bom.Text.{digits}
use d_barter.Bom.Text.Numbers.{read_digits-digits}
use d_barter.Dmath.Quantity.{IsQuantity, IsDigits, blanks}
use d_barter.Dmath.Quantity.Hundredths.{
  opposite, is_zero, is_neg, of_int, size, frac, taken_out, divisors, lowest, write, skip_blanks,
  all_digits, parse, hundredths,
}

-- A fraction of the denominator 100.
abbrev IsHundredth : ℕ → ℕ × ℕ → Type 0
IsHundredth i r = (r.0 * 100 ≡ i * r.1) × (0 < r.1)

taken_out-IsHundredth :
    (l : List (ℕ × ℕ)) (i : ℕ)
    → All (λ r. (r.0 * r.1 ≡ 100) × (0 < r.1)) l
    → IsHundredth i (taken_out l i)
taken_out-IsHundredth [] i h = (refl, omega arith)
taken_out-IsHundredth ((p, q) ∷ l) i h = elim (Bool-cases (i % p == 0)) [
  | inl e ↦ rw e (
    omega (
      arith,
      div-add-mod' i p,
      ap (λ x. x * q) (div-add-mod' i p),
      ap (λ x. x * q) ((==_iff (i % p) 0).0 e),
      ap (λ x. i / p * x) h.0.0,
    ),
    h.0.1,
  )
  | inr e ↦ rw e (taken_out-IsHundredth l i h.1)
]

lowest-IsHundredth : (i : ℕ) → IsHundredth i (lowest i)
lowest-IsHundredth i = taken_out-IsHundredth divisors i (
  (refl, omega arith),
  (
    (refl, omega arith),
    (
      (refl, omega arith),
      (
        (refl, omega arith),
        (
          (refl, omega arith),
          ((refl, omega arith), ((refl, omega arith), ((refl, omega arith), tt))),
        ),
      ),
    ),
  ),
)

proper : (i : ℕ) (r : ℕ × ℕ) → i < 100 → IsHundredth i r → r.0 < r.1
proper i r lt h = elim (Bool-cases (ltb r.0 r.1)) [
  | inl e ↦ ground (arith, e)
  | inr e ↦ absurd (
      omega (
        arith,
        h.0,
        h.1,
        mul-le-mul_right {m = suc i} {n = 100} r.1 (omega (arith, lt)),
        mul-le-mul_right {m = r.1} {n = r.0} 100 (ground (arith, e)),
      ))
]

frac-le : (a b c d : ℕ) → 0 < b → 0 < d → a * d ≡ c * b → a * 100 / b ≤ c * 100 / d
frac-le a b c d hb hd h = (le-div_iff_mul-le {k = d} {x = a * 100 / b} {y = c * 100} hd).1 (
    le_of_mul-le-mul_right {m = a * 100 / b * d} {n = c * 100} {k = b}
      (omega (
        arith,
        ap (λ x. x * 100) h,
        mul-le-mul_right {m = a * 100 / b * b} {n = a * 100} d (div-mul-le_self (a * 100) b),
      ))
      hb)

frac_eq :
    (a b c d : ℕ) → 0 < b → 0 < d → a * d ≡ c * b → frac (pos a) (pos b) ≡ frac (pos c) (pos d)
frac_eq a b c d hb hd h =
    ap pos (le_antisymm (frac-le a b c d hb hd h) (frac-le c d a b hd hb (sym h)))

frac-num-den :
    (q : ℤ) → is_neg q ≡ false → frac (pos (lowest (size q)).0) (pos (lowest (size q)).1) ≡ q
frac-num-den (negsuc i) h = absurd (cc h)
frac-num-den (pos i) h =
    let (e, p) = lowest-IsHundredth i in
    ap pos (div-eq_of_eq-mul_left {n = (lowest i).1} {m = (lowest i).0 * 100} {k = i} p e)

trunc_part :
    (q : ℤ)
    → is_neg q ≡ false
    → let f = q -ℤ of_int (pos (size q / 100)) in
      (is_neg f ≡ false) × ((lowest (size f)).0 < (lowest (size f)).1)
trunc_part (negsuc i) h = absurd (cc h)
trunc_part (pos i) h =
    let e : pos i -ℤ pos (i / 100 * 100) ≡ pos (i % 100) = ground arith in
    (
      ap is_neg e,
      subst (λ f. (lowest (size f)).0 < (lowest (size f)).1) (sym e)
          (proper (i % 100) (lowest (i % 100)) (omega arith) (lowest-IsHundredth (i % 100))),
    )

-- The digits of a number.
few : (i : ℕ) → i < tens (suc i)
few zero = omega arith
few (suc i) = omega (arith, few i)

abbrev IsAll : Bytes → Type 0
IsAll s = IsDigits s × (all_digits s ≡ true)

digits-IsAll : (fuel i : ℕ) (acc : Bytes) → IsAll acc → IsAll (digits fuel i acc)
digits-IsAll zero i acc h = h
digits-IsAll (suc fuel) i acc h = elim (Bool-cases (i == 0)) [
  | inl e ↦ rw e h
  | inr e ↦
      let d : is_digit (i % 10 + 48) ≡ true = ground arith in
      rw e (
        digits-IsAll fuel (i / 10) ((i % 10 + 48) ∷ acc)
          (((omega arith, omega arith), h.0), rw d h.1))
]

write-IsAll : (i : ℕ) → IsAll (write i)
write-IsAll i = elim (Bool-cases (i == 0)) [
  | inl e ↦ rw e (((omega arith, omega arith), tt), refl)
  | inr e ↦
      let d : is_digit (i % 10 + 48) ≡ true = ground arith in
      rw e
        (digits-IsAll i (i / 10) ((i % 10 + 48) ∷ []) (((omega arith, omega arith), tt), rw d refl))
]

length-digits-le :
    (fuel i e : ℕ) (acc : Bytes) → i < tens e → length (digits fuel i acc) ≤ e + length acc
length-digits-le zero i e acc h = omega arith
length-digits-le (suc fuel) i zero acc h =
    let z : (i == 0) ≡ true = ground (arith, h) in rw z (omega arith)
length-digits-le (suc fuel) i (suc e) acc h = elim (Bool-cases (i == 0)) [
  | inl z ↦ rw z (omega arith)
  | inr z ↦
      rw z
        (omega (arith, length-digits-le fuel (i / 10) e ((i % 10 + 48) ∷ acc) (omega (arith, h))))
]

length-write-le : (i e : ℕ) → 0 < e → i < tens e → length (write i) ≤ e
length-write-le i e p h = elim (Bool-cases (i == 0)) [
  | inl z ↦ rw z (omega (arith, p))
  | inr z ↦
      subst (λ b. length (if b then codes "0" else digits (suc i) i []) ≤ e) (sym z)
        (omega (arith, length-digits-le (suc i) i e [] h))
]

digits-nonempty :
    (fuel i c : ℕ) (acc : Bytes) → (d : ℕ) × ((s : Bytes) × (digits fuel i (c ∷ acc) ≡ d ∷ s))
digits-nonempty zero i c acc = (c, (acc, refl))
digits-nonempty (suc fuel) i c acc = elim (Bool-cases (i == 0)) [
  | inl e ↦ (c, (acc, rw e refl))
  | inr e ↦
      let (d, (s, h)) = digits-nonempty fuel (i / 10) (i % 10 + 48) (c ∷ acc) in (d, (s, rw e h))
]

write-nonempty : (i : ℕ) → (d : ℕ) × ((s : Bytes) × (write i ≡ d ∷ s))
write-nonempty i = elim (Bool-cases (i == 0)) [
  | inl e ↦ (48, ([], rw e refl))
  | inr e ↦ let (d, (s, h)) = digits-nonempty i (i / 10) (i % 10 + 48) [] in (d, (s, rw e h))
]

read-write : (i : ℕ) → read_digits 0 (write i) ≡ i
unfolding read_digits
read-write i = elim (Bool-cases (i == 0)) [
  | inl e ↦ rw e (sym ((==_iff i 0).0 e))
  | inr e ↦
      subst (λ b. read_digits 0 (if b then codes "0" else digits (suc i) i []) ≡ i) (sym e)
        (read_digits-digits (suc i) i [] (few i))
]

parse-digits :
    (c : ℕ) (s : Bytes) → IsAll (c ∷ s) → parse (c ∷ s) ≡ some (pos (read_digits 0 (c ∷ s)))
parse-digits c s (h, k) = let e : (c == 45) ≡ false = ground (arith, h.0) in rw (e, k) refl

skip-digits : (i c : ℕ) (s : Bytes) → IsDigits (c ∷ s) → skip_blanks (blanks i ++ (c ∷ s)) ≡ c ∷ s
skip-digits zero c s h = let e : (c == 32) ≡ false = ground (arith, h.0) in rw e refl
skip-digits (suc i) c s h = skip-digits i c s h

parse-write : (i a : ℕ) → parse (skip_blanks (blanks i ++ write a)) ≡ some (pos a)
parse-write i a =
    let (c, (s, e)) = write-nonempty a in
    let all : IsAll (c ∷ s) = subst IsAll e (write-IsAll a) in
    ap (λ t. parse (skip_blanks (blanks i ++ t))) e
    ∙ ap parse (skip-digits i c s all.0)
    ∙ parse-digits c s all
    ∙ ap (λ t. some (pos (read_digits 0 t))) (sym e)
    ∙ ap (λ x. some (pos x)) (read-write a)

eq_zero : (q : ℤ) → is_zero q ≡ true → q ≡ pos 0
eq_zero (pos i) h = ground arith
eq_zero (negsuc i) h = cc

add_nonneg : (p q : ℤ) → is_neg p ≡ false → is_neg q ≡ false → is_neg (p +ℤ q) ≡ false
add_nonneg (pos a) (pos b) h k = ground arith
add_nonneg (pos a) (negsuc b) h k = cc
add_nonneg (negsuc a) q h k = cc

add-sub : (p q : ℤ) → q +ℤ (p -ℤ q) ≡ p
add-sub (pos a) (pos b) = ground arith
add-sub (pos a) (negsuc b) = ground arith
add-sub (negsuc a) (pos b) = ground arith
add-sub (negsuc a) (negsuc b) = ground arith

add_comm : (p q : ℤ) → p +ℤ q ≡ q +ℤ p
add_comm (pos a) (pos b) = ground arith
add_comm (pos a) (negsuc b) = ground arith
add_comm (negsuc a) (pos b) = ground arith
add_comm (negsuc a) (negsuc b) = ground arith

add_zero : (p : ℤ) → p +ℤ pos 0 ≡ p
add_zero (pos a) = ground arith
add_zero (negsuc a) = ground arith

opposite-opposite : (q : ℤ) → opposite (opposite q) ≡ q
opposite-opposite (pos zero) = refl
opposite-opposite (pos (suc i)) = refl
opposite-opposite (negsuc i) = refl

opposite_nonneg : (q : ℤ) → is_neg q ≡ true → is_neg (opposite q) ≡ false
opposite_nonneg (pos i) h = absurd (cc h)
opposite_nonneg (negsuc i) h = refl

pub hundredths-IsQuantity : IsQuantity hundredths
hundredths-IsQuantity = record {
  eq_zero = eq_zero;
  zero_nonneg = refl;
  add_nonneg = add_nonneg;
  sub-add = -ℤ-+ℤ;
  add-sub = add-sub;
  add_comm = add_comm;
  add_zero = add_zero;
  neg-neg = opposite-opposite;
  neg_nonneg = opposite_nonneg;
  neg_zero = refl;
  of_int_zero = refl;
  of_int-frac = λ a. ap pos (omega arith);
  den_pos = λ q h. (lowest-IsHundredth (size q)).1;
  frac-num-den = frac-num-den;
  frac_eq = frac_eq;
  div_ten-frac = λ a b h. ap pos (div-div-eq-div-mul (a * 100) b 10);
  trunc_part = trunc_part;
  get_str-IsDigits = λ a. (write-IsAll a).0;
  length-get_str-le = length-write-le;
  get_str_zero = refl;
  set_str-get_str = parse-write;
}
