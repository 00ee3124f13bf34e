-- ===== src/Bom/Acct/Challenge/Tests.antt =====
-- A challenge on the database in memory, with numbers written in ones.
use d_barter.Base.{ℕ, ◌≡◌, refl, true, none, some, arith}
use d_barter.Base.Bytes.{codes, str_eq}
use d_barter.Bom.Store.{ok}
use d_barter.Bom.Store.Memory.{Table-discrete, Memory, no_rows, memory}
use d_barter.Bom.Text.{string_to_dbt, dbt_to_string}
use d_barter.Bom.Acct.{dbt_to_bz, get_modulus, set_modulus, get_public, set_public, verify_reponse}
use d_barter.Bom.Acct.Challenge.{Keyed, verify_reponse-rsa_crypt}
use d_barter.Dmath.Integer.Ones.{counts, counts-IsInteger}
use d_barter.Dmath.Rsa.{split, rsa_crypt}
use d_barter.Dmath.Rsa.Inverse.{IsKeyPair}

abbrev keyed : Memory
keyed =
    (set_public memory counts (codes "u") 7 (set_modulus memory counts (codes "u") 10 no_rows).1).1

keyed-Keyed : Keyed memory counts (codes "u") 10 7 keyed keyed
unfolding get_modulus get_public set_modulus set_public dbt_to_bz dbt_to_string string_to_dbt str_eq
    Table-discrete
keyed-Keyed = (keyed, refl, refl)

seven_of_three : IsKeyPair counts.powm 3 7 10
seven_of_three = record {
  small = λ a lt. omega arith;
  undone = λ a lt. omega (arith, lt);
  of_zero = refl;
}

verify_reponse-rsa_crypt_example :
    (r : ℕ) × (rsa_crypt counts.powm 407 3 10 ≡ some r)
    × (verify_reponse memory counts (codes "u") 407 r keyed ≡ (ok true, keyed))
verify_reponse-rsa_crypt_example =
    verify_reponse-rsa_crypt memory counts counts-IsInteger (codes "u") 10 7 3 407 keyed keyed
      keyed-Keyed refl (omega arith) seven_of_three

-- With a modulus of 1 the run does not end.
modulus_of_one : rsa_crypt counts.powm 3 3 1 ≡ none
unfolding rsa_crypt split
modulus_of_one = refl
