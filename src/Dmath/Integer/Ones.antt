-- ===== src/Dmath/Integer/Ones.antt =====
-- The natural numbers as an instance of the interface of `dmath::bz` (dmath/dmath.h). A number is
-- written in ones, and a power is a product, for which 3 and 7 undo each other modulo 10.
use d_barter.Base.{◌≡◌, refl, true, arith, ℕ, zero, suc, ◌*◌, ◌%◌, some, [], ◌∷◌, ◌==◌, ltb, length}
use d_barter.Base.Bytes.{Bytes}
use d_barter.Dmath.Integer.{Integer, IsInteger}

abbrev in_ones : ℕ → Bytes
in_ones zero = []
in_ones (suc i) = b'1' ∷ in_ones i

abbrev pub counts : Integer
counts = record {
  Z = ℕ;
  zero = 0;
  is_pos = λ i. ltb 0 i;
  is_below = ltb;
  eqb = ◌==◌;
  of_string = λ s. some (length s);
  to_string = in_ones;
  magnitude = λ i. i;
  of_ℕ = λ i. i;
  powm = λ a k m. (a * k) % m;
}

pub counts-IsInteger : IsInteger counts
counts-IsInteger = record { magnitude-of_ℕ = λ i. refl; eqb_self = self }
  where
    self : (i : ℕ) → (i == i) ≡ true
    self i = ground arith
