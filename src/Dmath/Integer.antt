-- ===== src/Dmath/Integer.antt =====
-- The integers of the program: the interface of `dmath::bz` (dmath/dmath.h), whose values and
-- operations are those of GMP's `mpz_t`. `of_string` is `string_to_bz` (`none` for -1) and
-- `to_string` is `bz_to_string`; `zero` is a fresh number, `is_below` compares with a constant,
-- `magnitude` is the number itself if it is not negative and 0 if it is, and `powm` is `mpz_powm` of a
-- base, an exponent, which may be negative, and a modulus.
pub mod Ones
use d_barter.Base.{ℕ, ◌≡◌, Bool, true, Option}
use d_barter.Base.Bytes.{Bytes}

pub record Integer : Type 1 where
  pub Z : Type 0
  pub zero : Z
  pub is_pos : Z → Bool
  pub is_below : Z → ℕ → Bool
  pub eqb : Z → Z → Bool
  pub of_string : Bytes → Option Z
  pub to_string : Z → Bytes
  pub magnitude : Z → ℕ
  pub of_ℕ : ℕ → Z
  pub powm : ℕ → Z → ℕ → ℕ

-- What the integers keep of the natural numbers.
pub record IsInteger (z : Integer) : Type 0 where
  pub magnitude-of_ℕ : (i : ℕ) → z.magnitude (z.of_ℕ i) ≡ i
  pub eqb_self : (x : z.Z) → z.eqb x x ≡ true
