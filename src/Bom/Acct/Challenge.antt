-- ===== src/Bom/Acct/Challenge.antt =====
-- Who passes the challenge of an account (bom/acct.cc).
mod Tests
use d_barter.Base.{ℕ, ◌≤◌, ◌≡◌, refl, ◌∙◌, Bool, true, false, not, none, some, if◌then◌else◌}
use d_barter.Base.Bytes.{Bytes}
use d_barter.Bom.Store.{out_of_fuel, ok, M, pure, fail, ◌>>=◌, Store}
use d_barter.Bom.Store.Monad.{>>=-ok}
use d_barter.Bom.Acct.{get_modulus, get_public, verify_reponse}
use d_barter.Dmath.Integer.{Integer, IsInteger}
use d_barter.Dmath.Rsa.{rsa_crypt}
use d_barter.Dmath.Rsa.Inverse.{IsKeyPair, rsa_crypt-rsa_crypt}

module _ (db : Store) (z : Integer) where
  open db use {State}

  -- What a response is held against: the two numbers that are stored for the account.
  abbrev pub Keyed : Bytes → z.Z → z.Z → State → State → Type 0
  Keyed id km kp s s' =
      (s1 : State) × (get_modulus db z id s ≡ (ok km, s1)) × (get_public db z id s1 ≡ (ok kp, s'))

  module _ (law : IsInteger z) where
    -- If the modulus and the public key of the account can be read, the modulus is 2 or more, and a
    -- secret key is undone by the public one on the numbers below the modulus, then for every challenge
    -- that is not negative the encryption with the secret key ends, and `verify_reponse` ends and
    -- accepts what it gives.
    pub verify_reponse-rsa_crypt :
        (id : Bytes) (km kp kd : z.Z) (c : ℕ) (s s' : State)
        → Keyed id km kp s s'
        → z.is_pos km ≡ true
        → 2 ≤ z.magnitude km
        → IsKeyPair z.powm kd kp (z.magnitude km)
        → (r : ℕ) × (rsa_crypt z.powm c kd (z.magnitude km) ≡ some r)
          × (verify_reponse db z id (z.of_ℕ c) (z.of_ℕ r) s ≡ (ok true, s'))
    unfolding verify_reponse
    verify_reponse-rsa_crypt id km kp kd c s s' (s1, em, ep) positive two pair =
        let (r, made, undone) = rsa_crypt-rsa_crypt z.powm kd kp (z.magnitude km) c two pair in
        (
          r,
          made,
          >>=-ok (get_modulus db z id) (λ m. get_public db z id >>= λ k. answer m k (z.of_ℕ r)) em
              ∙ >>=-ok (get_public db z id) (λ k. answer km k (z.of_ℕ r)) ep
              ∙ judged r undone,
        )
      where
        answer : z.Z → z.Z → z.Z → M State Bool
        answer m k x =
            if not (z.is_pos m)
            then pure false
            else elim (rsa_crypt z.powm (z.magnitude x) k (z.magnitude m)) [
              | none ↦ fail out_of_fuel
              | some c1 ↦ pure (z.eqb (z.of_ℕ c) (z.of_ℕ c1))
            ]

        judged :
            (r : ℕ)
            → rsa_crypt z.powm r kp (z.magnitude km) ≡ some c
            → answer km kp (z.of_ℕ r) s' ≡ (ok true, s')
        judged r e = rw (positive, law.magnitude-of_ℕ r, e, law.eqb_self (z.of_ℕ c)) refl
