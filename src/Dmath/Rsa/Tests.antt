-- ===== src/Dmath/Rsa/Tests.antt =====
-- Encryption with a base of 10, where the power maps a digit to its triple: 3 and 7 are inverse to each
-- other modulo 10.
use d_barter.Base.{ℕ, ◌*◌, ◌%◌, ◌≡◌, refl, some, arith}
use d_barter.Dmath.Rsa.{Powm, rsa_crypt}
use d_barter.Dmath.Rsa.Inverse.{IsKeyPair, rsa_crypt-rsa_crypt}

abbrev times : Powm ℕ
times a k m = (a * k) % m

times-IsKeyPair : IsKeyPair times 3 7 10
times-IsKeyPair = record {
  small = λ a lt. omega arith;
  undone = λ a lt. omega (arith, lt);
  of_zero = refl;
}

rsa_crypt-rsa_crypt_example :
    (c : ℕ) × (rsa_crypt times 407 3 10 ≡ some c) × (rsa_crypt times c 7 10 ≡ some 407)
rsa_crypt-rsa_crypt_example = rsa_crypt-rsa_crypt times 3 7 10 407 (omega arith) times-IsKeyPair
