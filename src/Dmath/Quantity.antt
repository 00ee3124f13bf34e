-- ===== src/Dmath/Quantity.antt =====
-- The integers and rational numbers of GMP that dmath/bq.cc and dmath/bz.cc wrap: the calls on `mpz_t`
-- and `mpq_t`, a library that is not part of the repository. The operators of `dmath::bq` are one
-- call each: `add` and `sub` are operator+= and operator-=, `neg` the product with -1, `div_ten` the
-- quotient by 10, `is_zero` and `is_neg` the comparisons with 0. `of_int` is mpq_set_z, `trunc`
-- mpz_set_q, `num` and `den` are mpq_numref and mpq_denref, of numbers that are not negative, and
-- `frac` is mpq_set_num, mpq_set_den and mpq_canonicalize, which raises a signal where the
-- denominator is 0. `get_str` is mpz_get_str of a number that is not negative, and `set_str` is
-- mpz_set_str, both to the base 10; `none` is -1.
pub mod Hundredths
pub mod Powers
use d_barter.Base.{
  ℕ, zero, suc, ◌*◌, ◌<◌, ◌≤◌, ◌≡◌, ◌≢◌, Bool, true, false, Option, some, [], ◌∷◌, ◌++◌, All,
  length, tens,
}
use d_barter.Base.Int.{ℤ, pos}
use d_barter.Base.Bytes.{Bytes}

pub record Quantity : Type 1 where
  pub Q : Type 0
  pub zero : Q
  pub add : Q → Q → Q
  pub sub : Q → Q → Q
  pub neg : Q → Q
  pub div_ten : Q → Q
  pub is_zero : Q → Bool
  pub is_neg : Q → Bool
  pub of_int : ℤ → Q
  pub trunc : Q → ℕ
  pub num : Q → ℕ
  pub den : Q → ℕ
  pub frac : ℤ → ℤ → Q
  pub get_str : ℕ → Bytes
  pub set_str : Bytes → Option ℤ

-- So many blanks.
abbrev pub blanks : ℕ → Bytes
blanks zero = []
blanks (suc i) = 32 ∷ blanks i

abbrev pub IsDigits : Bytes → Type 0
IsDigits s = All (λ c. (48 ≤ c) × (c < 58)) s

-- What GMP documents of them: sums and differences are exact, a number is the quotient of its
-- numerator and denominator, equal fractions are equal numbers, the integral part of a number is less
-- than 1 away; a number is written with digits, as few as it needs, and is read back, blanks in front
-- of it being ignored.
pub record IsQuantity (n : Quantity) : Type 0 where
  pub eq_zero : (q : n.Q) → n.is_zero q ≡ true → q ≡ n.zero
  pub zero_nonneg : n.is_neg n.zero ≡ false
  pub add_nonneg :
      (p q : n.Q) → n.is_neg p ≡ false → n.is_neg q ≡ false → n.is_neg (n.add p q) ≡ false
  pub sub-add : (p q : n.Q) → n.sub (n.add p q) q ≡ p
  pub add-sub : (p q : n.Q) → n.add q (n.sub p q) ≡ p
  pub add_comm : (p q : n.Q) → n.add p q ≡ n.add q p
  pub add_zero : (p : n.Q) → n.add p n.zero ≡ p
  pub neg-neg : (q : n.Q) → n.neg (n.neg q) ≡ q
  pub neg_nonneg : (q : n.Q) → n.is_neg q ≡ true → n.is_neg (n.neg q) ≡ false
  pub neg_zero : n.neg n.zero ≡ n.zero
  pub of_int_zero : n.of_int (pos 0) ≡ n.zero
  pub of_int-frac : (a : ℕ) → n.of_int (pos a) ≡ n.frac (pos a) (pos 1)
  pub den_pos : (q : n.Q) → n.is_neg q ≡ false → 0 < n.den q
  pub frac-num-den : (q : n.Q) → n.is_neg q ≡ false → n.frac (pos (n.num q)) (pos (n.den q)) ≡ q
  pub frac_eq :
      (a b c d : ℕ)
      → 0 < b
      → 0 < d
      → a * d ≡ c * b
      → n.frac (pos a) (pos b) ≡ n.frac (pos c) (pos d)
  pub div_ten-frac :
      (a b : ℕ) → 0 < b → n.div_ten (n.frac (pos a) (pos b)) ≡ n.frac (pos a) (pos (b * 10))
  pub trunc_part :
      (q : n.Q)
      → n.is_neg q ≡ false
      → (n.is_neg (n.sub q (n.of_int (pos (n.trunc q)))) ≡ false)
        × (n.num (n.sub q (n.of_int (pos (n.trunc q))))
            < n.den (n.sub q (n.of_int (pos (n.trunc q)))))
  pub get_str-IsDigits : (a : ℕ) → IsDigits (n.get_str a)
  pub length-get_str-le : (a e : ℕ) → 0 < e → a < tens e → length (n.get_str a) ≤ e
  pub get_str_zero : n.get_str 0 ≡ b'0' ∷ []
  pub set_str-get_str : (i a : ℕ) → n.set_str (blanks i ++ n.get_str a) ≡ some (pos a)

-- Products, quotients and the order of mpq_t, with the number 1.
pub record Ratio (n : Quantity) : Type 0 where
  pub one : n.Q
  pub mul : n.Q → n.Q → n.Q
  pub div : n.Q → n.Q → n.Q
  pub lt : n.Q → n.Q → Bool

-- The laws of an ordered field that a trade relies on, for numbers that are not negative.
pub record IsRatio (n : Quantity) (t : Ratio n) : Type 0 where
  pub mul_comm : (a b : n.Q) → t.mul a b ≡ t.mul b a
  pub mul_assoc : (a b c : n.Q) → t.mul (t.mul a b) c ≡ t.mul a (t.mul b c)
  pub mul_one : (a : n.Q) → t.mul a t.one ≡ a
  pub mul-div : (a b : n.Q) → t.lt n.zero b ≡ true → t.mul b (t.div a b) ≡ a
  pub mul_pos :
      (a b : n.Q) → t.lt n.zero a ≡ true → t.lt n.zero b ≡ true → t.lt n.zero (t.mul a b) ≡ true
  -- `lt b a ≡ false` is a ≤ b.
  pub lt_irrefl : (a : n.Q) → t.lt a a ≡ false
  pub lt_asymm : (a b : n.Q) → t.lt a b ≡ true → t.lt b a ≡ false
  pub mul-le :
      (a b c : n.Q) → t.lt n.zero c ≡ true → t.lt b a ≡ false → t.lt (t.mul b c) (t.mul a c) ≡ false
  pub le_of_mul :
      (a b c : n.Q) → t.lt n.zero c ≡ true → t.lt (t.mul b c) (t.mul a c) ≡ false → t.lt b a ≡ false
  pub zero_of_sub : (a : n.Q) → n.is_zero (n.sub a a) ≡ true
