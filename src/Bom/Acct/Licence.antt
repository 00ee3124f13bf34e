-- ===== src/Bom/Acct/Licence.antt =====
-- Who may go below zero (bom/acct.cc): what the test in `debit` reads, and what it answers.
use d_barter.Base.{
  ℕ, ◌≡◌, refl, sym, ◌∙◌, ap, subst, ◌⊎◌, inl, inr, Bool, true, false, not, Option, none, some,
  Bool-cases, if◌then◌else◌,
}
use d_barter.Base.Bytes.{Bytes, str_eq, eq_of_str_eq}
use d_barter.Bom.Store.{Table, acct_flags, denom_issuer, ok, M, pure, ◌>>=◌, Store}
use d_barter.Bom.Store.Laws.{IsStore}
use d_barter.Bom.Store.Monad.{>>=-eq-ok}
use d_barter.Bom.Text.{string_to_dbt, dbt_to_string, dbt_to_flags}
use d_barter.Bom.Denom
use d_barter.Bom.Acct.{is_super, is_issuer, get_flags, may_overdraw}
use d_barter.Bom.Acct.Balance.{ok-injective}
use d_barter.Dmath.Quantity.{Quantity}

abbrev pub map_some : {A B : Type 0} → (A → B) → Option A → Option B
map_some f none = none
map_some f (some a) = some (f a)

module _ (db : Store) (law : IsStore db) where
  open db use {State}
  open law use {content}

  -- The flags that are stored for an account, and the issuer that is stored for a denomination.
  abbrev pub flags_of : Bytes → State → Option ℕ
  flags_of id s = map_some dbt_to_flags (content acct_flags (string_to_dbt id) s)

  abbrev pub issuer_of : Bytes → State → Option Bytes
  issuer_of denom s = map_some dbt_to_string (content denom_issuer (string_to_dbt denom) s)

  -- An account that may go below 0 in a denomination: a superuser, or its issuer with the flag of
  -- issuers.
  abbrev pub IsLicensed : Bytes → Bytes → State → Type 0
  IsLicensed id denom s =
      (f : ℕ) × (flags_of id s ≡ some f)
      × ((is_super f ≡ true) ⊎ ((is_issuer f ≡ true) × (issuer_of denom s ≡ some id)))

  -- The two states hold the same.
  abbrev pub Kept : State → State → Type 0
  Kept s s' = (t : Table) (j : Bytes) → content t j s' ≡ content t j s

  pub get_flags-eq_ok :
      (id : Bytes) (f : ℕ) (s s' : State)
      → get_flags db id s ≡ (ok f, s')
      → (flags_of id s ≡ some f) × Kept s s'
  unfolding get_flags
  get_flags-eq_ok id f s s' h =
      let (v, p, q) =
        >>=-eq-ok (db.get acct_flags (string_to_dbt id)) (λ v. pure (dbt_to_flags v)) s s' f h in
      let c = law.get_ok acct_flags (string_to_dbt id) v s refl p in
      (
        ap (map_some dbt_to_flags) c ∙ ap some (ok-injective (ap (λ x. x.0) q)),
        subst (Kept s) (ap (λ x. x.1) q) (law.get_keeps acct_flags (string_to_dbt id) s),
      )

  get_issuer-eq_ok :
      (denom i : Bytes) (s s' : State)
      → Denom.get_issuer db denom s ≡ (ok i, s')
      → (issuer_of denom s ≡ some i) × Kept s s'
  unfolding Denom.get_issuer
  get_issuer-eq_ok denom i s s' h =
      let (v, p, q) =
        >>=-eq-ok (db.get denom_issuer (string_to_dbt denom)) (λ v. pure (dbt_to_string v)) s s' i
          h in
      let c = law.get_ok denom_issuer (string_to_dbt denom) v s refl p in
      (
        ap (map_some dbt_to_string) c ∙ ap some (ok-injective (ap (λ x. x.0) q)),
        subst (Kept s) (ap (λ x. x.1) q) (law.get_keeps denom_issuer (string_to_dbt denom) s),
      )

  issuer_of-Kept :
      (denom : Bytes) (s s' : State) → Kept s s' → issuer_of denom s' ≡ issuer_of denom s
  issuer_of-Kept denom s s' k = ap (map_some dbt_to_string) (k denom_issuer (string_to_dbt denom))

  pub IsLicensed-Kept :
      (id denom : Bytes) (s s' : State) → Kept s s' → IsLicensed id denom s' → IsLicensed id denom s
  IsLicensed-Kept id denom s s' k (f, e, inl su) =
      (f, sym (ap (map_some dbt_to_flags) (k acct_flags (string_to_dbt id))) ∙ e, inl su)
  IsLicensed-Kept id denom s s' k (f, e, inr (is, g)) = (
    f,
    sym (ap (map_some dbt_to_flags) (k acct_flags (string_to_dbt id))) ∙ e,
    inr (is, sym (issuer_of-Kept denom s s' k) ∙ g),
  )

  module _ (n : Quantity) where
    pub may_overdraw-IsLicensed :
        (id denom : Bytes) (b : Bool) (s s' : State)
        → may_overdraw db n id denom s ≡ (ok b, s')
        → (b ≡ true → IsLicensed id denom s) × Kept s s'
    unfolding may_overdraw
    may_overdraw-IsLicensed id denom b s s' h =
        let (f, p, q) = >>=-eq-ok (get_flags db id) decide s s' b h in
        let s1 = (get_flags db id s).1 in
        let (e, k) = get_flags-eq_ok id f s s1 (λ i. (p i, s1)) in judge f s1 e k q
      where
        by_issuer : M State Bool
        by_issuer = Denom.get_issuer db denom >>= λ issuer. pure (str_eq issuer id)

        decide : ℕ → M State Bool
        decide f =
            if is_super f then pure true else if not (is_issuer f) then pure false else by_issuer

        ended :
            (c : Bool) (s1 : State)
            → Kept s s1
            → (c ≡ true → IsLicensed id denom s)
            → pure {S = State} c s1 ≡ (ok b, s')
            → (b ≡ true → IsLicensed id denom s) × Kept s s'
        ended c s1 k l q =
            (λ t. l (ok-injective (ap (λ x. x.0) q) ∙ t), subst (Kept s) (ap (λ x. x.1) q) k)

        judge :
            (f : ℕ) (s1 : State)
            → flags_of id s ≡ some f
            → Kept s s1
            → decide f s1 ≡ (ok b, s')
            → (b ≡ true → IsLicensed id denom s) × Kept s s'
        judge f s1 e k q = elim (Bool-cases (is_super f)) [
          | inl su ↦ ended true s1 k (λ _. (f, e, inl su)) (rw su at q)
          | inr nsu ↦ elim (Bool-cases (is_issuer f)) [
            | inr nis ↦ ended false s1 k (λ t. cc) (rw (nsu, nis) at q)
            | inl is ↦
                let (i, p, r) =
                  >>=-eq-ok (Denom.get_issuer db denom) (λ issuer. pure (str_eq issuer id)) s1 s' b
                    (rw (nsu, is) at q) in
                let s2 = (Denom.get_issuer db denom s1).1 in
                let (g, k2) = get_issuer-eq_ok denom i s1 s2 (λ z. (p z, s2)) in
                ended (str_eq i id) s2 (λ t j. k2 t j ∙ k t j)
                  (λ t. (
                    f,
                    e,
                    inr (is, sym (issuer_of-Kept denom s s1 k) ∙ g ∙ ap some (eq_of_str_eq i id t)),
                  ))
                  r
          ]
        ]
