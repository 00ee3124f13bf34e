-- ===== src/Dmath/Bq/Text.antt =====
-- The bytes of the text of a number (dmath/bq.cc).
use native.Mathlib.Nat.{mul-le-mul_right}
use d_barter.Base.{
  ℕ, zero, suc, ◌-◌, ◌*◌, ◌≤◌, ◌<◌, ◌≡◌, ◌≢◌, ◌⊎◌, refl, ap, ◌∙◌, none, [], ◌∷◌, ◌++◌, ltb, inl,
  inr, Bool-cases, arith, tens, length, length-append, All,
}
use d_barter.Base.Bytes.{Bytes, break_at}
use d_barter.Dmath.Quantity.{IsDigits, blanks}
use d_barter.Dmath.Bq.{padded}

pub break_at-none : (d : ℕ) (s : Bytes) → All (λ c. c ≢ d) s → break_at d s ≡ none
unfolding break_at
break_at-none d [] h = refl
break_at-none d (c ∷ s) h = ground (arith, break_at-none d s h.1, h.0)

-- The bytes of a text of a number: digits, blanks, and the signs `+`, `.` and `/`.
abbrev pub IsText : Bytes → Type 0
IsText s = All (λ c. (32 ≤ c) × (c < 58) × (c ≢ 45)) s

abbrev pub IsPrinted : Bytes → Type 0
IsPrinted s = All (λ c. (32 ≤ c) × (c < 58)) s

pub text-IsPrinted : (s : Bytes) → IsText s → IsPrinted s
text-IsPrinted [] h = tt
text-IsPrinted (c ∷ s) h = ((h.0.0, h.0.1), text-IsPrinted s h.1)

pub append-IsPrinted : (s t : Bytes) → IsPrinted s → IsPrinted t → IsPrinted (s ++ t)
append-IsPrinted [] t h k = k
append-IsPrinted (c ∷ s) t h k = (h.0, append-IsPrinted s t h.1 k)

pub IsPrinted-ne : (d : ℕ) (s : Bytes) → (d < 32) ⊎ (58 ≤ d) → IsPrinted s → All (λ c. c ≢ d) s
IsPrinted-ne d [] o h = tt
IsPrinted-ne d (c ∷ s) o h = (λ e. ground (arith, o, h.0, e), IsPrinted-ne d s o h.1)

pub digits-ne : (d : ℕ) (s : Bytes) → (d < 48) ⊎ (58 ≤ d) → IsDigits s → All (λ c. c ≢ d) s
digits-ne d [] o h = tt
digits-ne d (c ∷ s) o h = (λ e. ground (arith, o, h.0, e), digits-ne d s o h.1)

pub digits-IsText : (s : Bytes) → IsDigits s → IsText s
digits-IsText [] h = tt
digits-IsText (c ∷ s) h = (
  (omega (arith, h.0.0), omega (arith, h.0.1), λ e. omega (arith, h.0.0, e)),
  digits-IsText s h.1,
)

pub append-IsText : (s t : Bytes) → IsText s → IsText t → IsText (s ++ t)
append-IsText [] t h k = k
append-IsText (c ∷ s) t h k = (h.0, append-IsText s t h.1 k)

pub append-ne :
    (d : ℕ) (s t : Bytes) → All (λ c. c ≢ d) s → All (λ c. c ≢ d) t → All (λ c. c ≢ d) (s ++ t)
append-ne d [] t h k = k
append-ne d (c ∷ s) t h k = (h.0, append-ne d s t h.1 k)

pub blanks-IsText : (i : ℕ) → IsText (blanks i)
blanks-IsText zero = tt
blanks-IsText (suc i) = ((omega arith, omega arith, λ e. omega (arith, e)), blanks-IsText i)

length-blanks : (i : ℕ) → length (blanks i) ≡ i
length-blanks zero = refl
length-blanks (suc i) = ap suc (length-blanks i)

pub length-padded : (e : ℕ) (s : Bytes) → length s ≤ e → length (padded e s) ≡ e
unfolding padded
length-padded e s le =
    length-append (blanks (e - length s)) s ∙ omega (arith, length-blanks (e - length s), le)

-- A fraction below 1 has fewer digits than its power of ten.
pub below : (num den k e : ℕ) → num < den → k * den ≡ num * tens e → 0 < tens e → k < tens e
below num den k e lt h p = elim (Bool-cases (ltb k (tens e))) [
  | inl b ↦ ground (arith, b)
  | inr b ↦ absurd (
      omega (
        arith,
        h,
        p,
        mul-le-mul_right {m = tens e} {n = k} den (ground (arith, b)),
        mul-le-mul_right {m = suc num} {n = den} (tens e) (omega (arith, lt)),
      ))
]

pub no_tens : (num den k : ℕ) → num < den → k * den ≡ num * 1 → num ≡ 0
no_tens num den k lt h = elim (Bool-cases (ltb 0 k)) [
  | inl b ↦ absurd (omega (arith, h, lt, mul-le-mul_right {m = 1} {n = k} den (ground (arith, b))))
  | inr b ↦ let z : k ≡ 0 = ground (arith, b) in omega (arith, h, ap (λ x. x * den) z)
]
