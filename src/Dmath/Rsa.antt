-- ===== src/Dmath/Rsa.antt =====
-- `rsa_crypt` (dmath/rsa.cc): a message is cut into digits of the base `km`, each digit is raised to the
-- power of the key by GMP's `mpz_powm`, a parameter, and the digits are put together again. The
-- numbers are those that are not negative, but for the key, which only `mpz_powm` looks at; a negative
-- message is as 0 to the loop. The callers refuse a modulus of 0, and with a modulus of 1 the loop of
-- the source does not end: `none`.
pub mod Inverse
mod Tests
use d_barter.Base.{
  ℕ, zero, suc, ◌+◌, ◌*◌, ◌/◌, ◌%◌, Bool, Option, none, some, List, [], ◌∷◌, ◌==◌, if◌then◌else◌,
}

-- `mpz_powm` of a base, an exponent and a modulus, with the type of the exponents.
abbrev pub Powm : Type 0 → Type 0
Powm K = ℕ → K → ℕ → ℕ

-- The first loop, with the list that it builds, the last digit first.
unfoldable pub split : {K : Type 0} → Powm K → K → ℕ → ℕ → ℕ → List ℕ → Option (List ℕ)
split powm ke km zero n l = if n == 0 then some l else none
split powm ke km (suc fuel) n l =
    let rest = split powm ke km fuel (n / km) (powm (n % km) ke km ∷ l) in
    if n == 0 then some l else rest

-- The second loop, with what it has put together.
unfoldable pub join : ℕ → ℕ → List ℕ → ℕ
join km out [] = out
join km out (d ∷ l) = join km (out * km + d) l

-- As many rounds as the message is large are enough.
unfoldable pub rsa_crypt : {K : Type 0} → Powm K → ℕ → K → ℕ → Option ℕ
rsa_crypt powm n ke km = elim (split powm ke km n n []) [
  | none ↦ none
  | some l ↦ some (join km 0 l)
]
