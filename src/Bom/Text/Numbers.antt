-- ===== src/Bom/Text/Numbers.antt =====
-- The decimal text of a number under `strtoul` (bom/event.cc, bom/acct.cc).
use d_barter.Base.{
  ℕ, zero, suc, tens, ◌+◌, ◌-◌, ◌*◌, ◌/◌, ◌%◌, ◌<◌, ◌≤◌, subst, ◌≡◌, refl, ap, ◌∙◌, sym, inl, inr,
  Bool-cases, ==_iff, false, Bool, true, ◌==◌, ltb, if◌then◌else◌, [], ◌∷◌, All, arith,
}
use d_barter.Base.Bytes.{
  Bytes, codes, is_digit, is_space, skip_spaces, read_digits, saturated, strtoul_signed, strtoul,
}
use d_barter.Bom.Text.{digits, decimal, format_int, NoNul}

last_digit : (n : ℕ) (acc : Bytes) → read_digits (n / 10) ((n % 10 + 48) ∷ acc) ≡ read_digits n acc
unfolding read_digits
last_digit n acc =
    let e : is_digit (n % 10 + 48) ≡ true = ground arith in
    let q : n / 10 * 10 + (n % 10 + 48 - 48) ≡ n = omega arith in rw e (rw q refl)

pub read_digits-digits :
    (fuel n : ℕ) (acc : Bytes)
    → n < tens fuel
    → read_digits 0 (digits fuel n acc) ≡ read_digits n acc
read_digits-digits zero n acc lt = ap (λ k. read_digits k acc) (omega (arith, lt))
read_digits-digits (suc fuel) n acc lt = elim (Bool-cases (n == 0)) [
  | inl e ↦ rw e (ap (λ k. read_digits k acc) (sym ((==_iff n 0).0 e)))
  | inr e ↦ rw e (
      read_digits-digits fuel (n / 10) ((n % 10 + 48) ∷ acc) (omega (arith, lt)) ∙ last_digit n acc)
]

-- A text of digits.
unfoldable pub AllDigits : Bytes → Type 0
AllDigits s = All (λ c. is_digit c ≡ true) s

pub digits-AllDigits : (fuel n : ℕ) (acc : Bytes) → AllDigits acc → AllDigits (digits fuel n acc)
unfolding AllDigits
digits-AllDigits zero n acc h = h
digits-AllDigits (suc fuel) n acc h = elim (Bool-cases (n == 0)) [
  | inl e ↦ rw e h
  | inr e ↦ rw e (digits-AllDigits fuel (n / 10) ((n % 10 + 48) ∷ acc) (ground arith, h))
]

strtoul-digits : (s : Bytes) → AllDigits s → strtoul s ≡ saturated (read_digits 0 s)
unfolding AllDigits strtoul strtoul_signed skip_spaces read_digits
strtoul-digits [] h = refl
strtoul-digits (c ∷ s) h =
    let space : is_space c ≡ false = ground (arith, h.0) in
    let minus : (c == 45) ≡ false = ground (arith, h.0) in
    let plus : (c == 43) ≡ false = ground (arith, h.0) in rw space (rw (minus, plus) refl)

no_digits : AllDigits []
unfolding AllDigits
no_digits = tt

tens_20 : tens 20 ≡ 100000000000000000000
tens_20 = refl

strtoul-some_digits : (fuel n : ℕ) → n < tens fuel → n < 4294967296 → strtoul (digits fuel n []) ≡ n
unfolding read_digits
strtoul-some_digits fuel n many lt =
    strtoul-digits (digits fuel n []) (digits-AllDigits fuel n [] no_digits)
    ∙ ap saturated (read_digits-digits fuel n [] many)
    ∙ within n lt
  where
    within : (n : ℕ) → n < 4294967296 → saturated n ≡ n
    within n lt = ground arith

zero_read : strtoul (codes "0") ≡ 0
unfolding strtoul strtoul_signed skip_spaces read_digits
zero_read = refl

-- The texts of 0 and of other numbers.
either_text :
    (P : ℕ → Bytes → Type 0) (b : Bool) (n : ℕ) (s : Bytes)
    → (n == 0) ≡ b
    → P 0 (codes "0")
    → P n s
    → P n (if b then codes "0" else s)
either_text P true n s e z h = subst (λ m. P m (codes "0")) (sym ((==_iff n 0).0 e)) z
either_text P false n s e z h = h

strtoul-decimal : (n : ℕ) → n < 4294967296 → strtoul (decimal n) ≡ n
unfolding decimal
strtoul-decimal n lt =
    either_text (λ m s. strtoul s ≡ m) (n == 0) n (digits 20 n []) refl zero_read
      (strtoul-some_digits 20 n (omega (arith, lt, tens_20)) lt)

read_zero : read_digits 0 (codes "0") ≡ 0
unfolding read_digits
read_zero = refl

read_none : (n : ℕ) → read_digits n [] ≡ n
unfolding read_digits
read_none n = refl

read_digits-decimal : (n : ℕ) → n < 4294967296 → read_digits 0 (decimal n) ≡ n
unfolding decimal
read_digits-decimal n lt =
    either_text (λ m s. read_digits 0 s ≡ m) (n == 0) n (digits 20 n []) refl read_zero
      (read_digits-digits 20 n [] (omega (arith, lt, tens_20)) ∙ read_none n)

-- From 2 ^ 31 on the text has a sign, and `strtoul` takes the number from 2 ^ 32.
pub strtoul-format_int : (n : ℕ) → n < 4294967296 → strtoul (format_int n) ≡ n
unfolding format_int strtoul strtoul_signed skip_spaces
strtoul-format_int n lt = elim (Bool-cases (ltb n 2147483648)) [
  | inl small ↦ rw small (strtoul-decimal n lt)
  | inr large ↦
      let k : 4294967296 - n < 4294967296 = ground (arith, large) in
      rw large (
        ap (λ x. (4294967296 - saturated x) % 4294967296) (read_digits-decimal (4294967296 - n) k)
        ∙ back n (ground (arith, large)) lt)
]
  where
    back :
        (n : ℕ)
        → 2147483648 ≤ n
        → n < 4294967296
        → (4294967296 - saturated (4294967296 - n)) % 4294967296 ≡ n
    back n ge lt = ground arith

zero-AllDigits : AllDigits (codes "0")
unfolding AllDigits
zero-AllDigits = (refl, tt)

decimal-AllDigits : (n : ℕ) → AllDigits (decimal n)
unfolding decimal
decimal-AllDigits n =
    either_text (λ m s. AllDigits s) (n == 0) n (digits 20 n []) refl zero-AllDigits
      (digits-AllDigits 20 n [] no_digits)

digits-NoNul : (s : Bytes) → AllDigits s → NoNul s
unfolding AllDigits
digits-NoNul [] h = tt
digits-NoNul (c ∷ s) h = (ground (arith, h.0), digits-NoNul s h.1)

pub format_int-NoNul : (n : ℕ) → NoNul (format_int n)
unfolding format_int
format_int-NoNul n = elim (Bool-cases (ltb n 2147483648)) [
  | inl small ↦ rw small (digits-NoNul (decimal n) (decimal-AllDigits n))
  | inr large ↦
      rw large
        (ground arith, digits-NoNul (decimal (4294967296 - n)) (decimal-AllDigits (4294967296 - n)))
]
