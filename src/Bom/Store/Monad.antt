-- ===== src/Bom/Store/Monad.antt =====
-- Inversion of the sequences of bom/: how a sequence that ended well went.
use d_barter.Base.{◌≡◌, refl, ◌⊎◌, inl, inr, ap}
use d_barter.Bom.Store.{
  not_found, minus_one, errno, out_of_fuel, Result, ok, err, M, ◌>>=◌, on_found, or_missing,
}

module _ {S A B : Type 0} where
  pub >>=-ok :
      (m : M S A) (f : A → M S B) {s s' : S} {a : A} → m s ≡ (ok a, s') → (m >>= f) s ≡ f a s'
  >>=-ok m f h = ap (λ x. elim x.0 [ ok a ↦ f a x.1 | err e ↦ (err e, x.1) ]) h

  -- A sequence that returned a value: so did both its parts.
  pub >>=-eq-ok :
      (m : M S A) (f : A → M S B) (s s'' : S) (b : B)
      → (m >>= f) s ≡ (ok b, s'')
      → (a : A) × ((m s).0 ≡ ok a) × (f a (m s).1 ≡ (ok b, s''))
  >>=-eq-ok m f s s'' b h = go (m s).0 refl h
    where
      go :
          (r : Result A)
          → (m s).0 ≡ r
          → (let x : Result B × S = elim r [ ok a ↦ f a (m s).1 | err e ↦ (err e, (m s).1) ] in x)
            ≡ (ok b, s'')
          → (a : A) × ((m s).0 ≡ ok a) × (f a (m s).1 ≡ (ok b, s''))
      go (ok a) p q = (a, p, q)
      go (err e) p q = cc

  -- A read with a default that returned a value.
  pub on_found-eq-ok :
      (m : M S A) (f : A → M S B) (missing : M S B) (s s'' : S) (b : B)
      → on_found m f missing s ≡ (ok b, s'')
      → ((a : A) × ((m s).0 ≡ ok a) × (f a (m s).1 ≡ (ok b, s'')))
        ⊎ (((m s).0 ≡ err not_found) × (missing (m s).1 ≡ (ok b, s'')))
  on_found-eq-ok m f missing s s'' b h = go (m s).0 refl h
    where
      go :
          (r : Result A)
          → (m s).0 ≡ r
          → (let x : Result B × S = elim r [
            | ok a ↦ f a (m s).1
            | err e ↦ elim e [ not_found ↦ missing (m s).1 | other ↦ (err other, (m s).1) ]
          ] in
              x)
            ≡ (ok b, s'')
          → ((a : A) × ((m s).0 ≡ ok a) × (f a (m s).1 ≡ (ok b, s'')))
            ⊎ (((m s).0 ≡ err not_found) × (missing (m s).1 ≡ (ok b, s'')))
      go (ok a) p q = inl (a, p, q)
      go (err not_found) p q = inr (p, q)
      go (err minus_one) p q = cc
      go (err (errno x)) p q = cc
      go (err out_of_fuel) p q = cc

module _ {S : Type 0} where
  pub or_missing-eq-ok :
      (m : M S (Unit {0})) (s s'' : S)
      → or_missing m s ≡ (ok tt, s'')
      → (((m s).0 ≡ ok tt) ⊎ ((m s).0 ≡ err not_found)) × ((m s).1 ≡ s'')
  or_missing-eq-ok m s s'' h = go (m s).0 refl h
    where
      go :
          (r : Result (Unit {0}))
          → (m s).0 ≡ r
          → (let x : Result (Unit {0}) × S = elim r [
            | ok _ ↦ (ok tt, (m s).1)
            | err e ↦ elim e [ not_found ↦ (ok tt, (m s).1) | other ↦ (err other, (m s).1) ]
          ] in
              x)
            ≡ (ok tt, s'')
          → (((m s).0 ≡ ok tt) ⊎ ((m s).0 ≡ err not_found)) × ((m s).1 ≡ s'')
      go (ok u) p q = (inl p, ap (λ x. x.1) q)
      go (err not_found) p q = (inr p, ap (λ x. x.1) q)
      go (err minus_one) p q = cc
      go (err (errno x)) p q = cc
      go (err out_of_fuel) p q = cc
