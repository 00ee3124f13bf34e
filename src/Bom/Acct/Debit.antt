-- ===== src/Bom/Acct/Debit.antt =====
-- Debits (bom/acct.cc): every way in which one can end.
use d_barter.Base.{
  ◌≡◌, refl, sym, ◌∙◌, ap, subst, ◌⊎◌, inl, inr, Bool, true, false, Bool-cases, if◌then◌else◌,
}
use d_barter.Base.Bytes.{Bytes}
use d_barter.Bom.Store.{ok, M, pure, ◌>>=◌, ◌>>◌, Store}
use d_barter.Bom.Store.Laws.{IsStore}
use d_barter.Bom.Store.Monad.{>>=-eq-ok}
use d_barter.Bom.Value.{Value}
use d_barter.Bom.Event.{event_new_debit}
use d_barter.Bom.Event.Frame.{event_new_debit-Keeps}
use d_barter.Bom.Acct.{get_value, set_value, write_balance, may_overdraw, record_debit, debit}
use d_barter.Bom.Acct.Balance.{
  ok-injective, balance, Sets, Sets-of_steps, Sets-of_write, result-of_write, get_value-balance,
  set_value-balance, write_balance-balance,
}
use d_barter.Dmath.Quantity.{Quantity, IsQuantity}
use d_barter.Bom.Acct.Licence.{IsLicensed, Kept, may_overdraw-IsLicensed, IsLicensed-Kept}

module _ (db : Store) (law : IsStore db) (n : Quantity) (nlaw : IsQuantity n) where
  open db use {State}

  -- What a debit has done, by the Boolean that it returns: a refusal changes nothing, not even the
  -- events; a success subtracts, and goes below 0 for a licensed account only.
  abbrev pub Debits : Bytes → Value n.Q → Bool → State → State → Type 0
  Debits id v false s s' = Kept db law s s'
  Debits id v true s s' =
      let new = n.sub (balance db law n nlaw id v.denom s) v.quant in
      Sets db law n nlaw id v.denom new s s'
      × ((n.is_neg new ≡ false) ⊎ IsLicensed db law id v.denom s)

  record_debit-Sets :
      (id denom : Bytes) (q : n.Q) (v : Value n.Q) (m : M State (Unit {0})) (b : Bool)
      (s s' : State)
      → ((s1 s2 : State) → m s1 ≡ (ok tt, s2) → Sets db law n nlaw id denom q s1 s2)
      → (m >> record_debit db n id v) s ≡ (ok b, s')
      → Sets db law n nlaw id denom q s s' × (b ≡ true)
  unfolding record_debit
  record_debit-Sets id denom q v m b s s' w h = (
    Sets-of_write db law n nlaw id denom q m (event_new_debit db n id v) true b s s' w
        (event_new_debit-Keeps db law n id v) h,
    result-of_write db law n nlaw m (event_new_debit db n id v) true b s s' h,
  )

  -- Every way in which a debit can end without a database error: a success has subtracted the amount
  -- and nothing else apart from events, and it went below zero only for a superuser or for the
  -- denomination's issuer; a refusal has changed nothing at all.
  pub debit-Debits :
      (id : Bytes) (v : Value n.Q) (b : Bool) (s s' : State)
      → debit db n id v s ≡ (ok b, s')
      → Debits id v b s s'
  unfolding debit
  debit-Debits id v b s s' h =
      let (old, p, q) = >>=-eq-ok read go_on s s' b h in
      let (e, same) =
        get_value-balance db law n nlaw id v.denom s (read s).1 old (λ k. (p k, (read s).1)) in
      judge same (subst (λ x. go_on x (read s).1 ≡ (ok b, s')) e q)
    where
      q0 : n.Q
      q0 = n.sub (balance db law n nlaw id v.denom s) v.quant

      new : Value n.Q
      new = record { denom = v.denom; quant = q0 }

      read : M State (Value n.Q)
      read = get_value db n id (record { denom = v.denom; quant = n.zero })

      overdraw : Value n.Q → Bool → M State Bool
      overdraw w allowed =
          if allowed then set_value db n id w >> record_debit db n id v else pure false

      go_on : Value n.Q → M State Bool
      go_on old =
          let w = record old { quant = n.sub old.quant v.quant } in
          if n.is_neg w.quant
          then may_overdraw db n id v.denom >>= overdraw w
          else (write_balance db n id w >> record_debit db n id v)

      written :
          (m : M State (Unit {0})) (s1 : State)
          → Kept db law s s1
          → ((s2 s3 : State) → m s2 ≡ (ok tt, s3) → Sets db law n nlaw id v.denom q0 s2 s3)
          → (m >> record_debit db n id v) s1 ≡ (ok b, s')
          → (n.is_neg q0 ≡ false) ⊎ IsLicensed db law id v.denom s
          → Debits id v b s s'
      written m s1 k w r l =
          let (d, t) = record_debit-Sets id v.denom q0 v m b s1 s' w r in
          subst (λ x. Debits id v x s s') (sym t)
            (Sets-of_steps db law n nlaw id v.denom q0 s s1 s' s' k d (λ _ _ _. refl), l)

      refused :
          (s1 : State)
          → Kept db law s s1
          → pure {S = State} false s1 ≡ (ok b, s')
          → Debits id v b s s'
      refused s1 k r =
          subst (λ x. Debits id v x s s') (ok-injective (ap (λ x. x.0) r))
            (subst (Kept db law s) (ap (λ x. x.1) r) k)

      branch :
          (allowed : Bool) (s2 : State)
          → Kept db law s s2
          → (allowed ≡ true → IsLicensed db law id v.denom s)
          → overdraw new allowed s2 ≡ (ok b, s')
          → Debits id v b s s'
      branch true s2 k l r =
          written (set_value db n id new) s2 k (set_value-balance db law n nlaw id new) r
            (inr (l refl))
      branch false s2 k l r = refused s2 k r

      judge :
          Kept db law s (read s).1
          → go_on
              (record { denom = v.denom; quant = balance db law n nlaw id v.denom s })
              (read s).1
            ≡ (ok b, s')
          → Debits id v b s s'
      judge k r = elim (Bool-cases (n.is_neg q0)) [
        | inr pos ↦
            written (write_balance db n id new) (read s).1 k
              (write_balance-balance db law n nlaw id new) (rw pos at r) (inl pos)
        | inl neg ↦
            let (allowed, p, g) =
              >>=-eq-ok (may_overdraw db n id v.denom) (overdraw new) (read s).1 s' b
                (rw neg at r) in
            let s2 = (may_overdraw db n id v.denom (read s).1).1 in
            let (l, k2) =
              may_overdraw-IsLicensed db law n id v.denom allowed (read s).1 s2 (λ z. (p z, s2)) in
            branch allowed s2 (λ t j. k2 t j ∙ k t j)
              (λ t. IsLicensed-Kept db law id v.denom s (read s).1 k (l t)) g
      ]
