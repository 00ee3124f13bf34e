-- ===== src/Bom/Acct/Balance.antt =====
-- What the operations of bom/acct.cc on money do to the balances.
use d_barter.Base.{
  ℕ, ◌≡◌, ◌≢◌, refl, sym, ◌∙◌, ap, subst, ◌⊎◌, inl, inr, Bool, true, false, Option, none, some,
  Bool-cases,
}
use d_barter.Base.Bytes.{Bytes}
use d_barter.Bom.Store.{Table, acct_value, not_found, ok, err, M, pure, ◌>>◌, Store}
use d_barter.Bom.Store.Laws.{IsStore}
use d_barter.Bom.Store.Monad.{>>=-eq-ok, on_found-eq-ok, or_missing-eq-ok}
use d_barter.Bom.Text.{dbt_to_string-string_to_dbt, pair_key}
use d_barter.Bom.Value.{Value, dbt_to_bq, bq_to_dbt}
use d_barter.Bom.Event.{event_new_credit, event_new_debit}
use d_barter.Bom.Event.Frame.{is_event, Frame, Keeps, event_new_credit-Keeps, event_new_debit-Keeps}
use d_barter.Bom.Acct.{get_value, set_value, del_value, write_balance, credit, debit_forced}
use d_barter.Dmath.Bq.{bq_to_string}
use d_barter.Dmath.Bq.RoundTrip.{string_to_bq-bq_to_string, bq_to_string-NoNul}
use d_barter.Dmath.Quantity.{Quantity, IsQuantity}

pub ok-injective {ℓ} : {A : Type ℓ} {a b : A} → ok a ≡ ok b → a ≡ b
ok-injective p = cc

module _ (db : Store) (law : IsStore db) (n : Quantity) (nlaw : IsQuantity n) where
  open db use {State}
  open law use {content}

  -- The amount that a record stands for.
  abbrev pub amount : Option Bytes → n.Q
  amount none = n.zero
  amount (some v) = dbt_to_bq n v n.zero

  -- What an account holds of a denomination.
  abbrev pub balance : Bytes → Bytes → State → n.Q
  balance id denom s = amount (content acct_value (pair_key id denom) s)

  -- Apart from events, the second state differs from the first at one balance only.
  abbrev pub Elsewhere : Bytes → State → State → Type 0
  Elsewhere k s s' =
      (t : Table) (j : Bytes)
      → is_event t ≡ false
      → (t ≢ acct_value) ⊎ (j ≢ k)
      → content t j s' ≡ content t j s

  -- The two states hold the same.
  abbrev pub Same : State → State → Type 0
  Same s s' = (t : Table) (j : Bytes) → content t j s' ≡ content t j s

  pub get_value-balance :
      (id denom : Bytes) (s s' : State) (val : Value n.Q)
      → get_value db n id (record { denom = denom; quant = n.zero }) s ≡ (ok val, s')
      → (val ≡ record { denom = denom; quant = balance id denom s }) × Same s s'
  unfolding get_value
  get_value-balance id denom s s' val h =
      elim (on_found-eq-ok (db.get acct_value (pair_key id denom)) read absent s s' val h) [
        | inl (v, p, q) ↦
            let c = law.get_ok acct_value (pair_key id denom) v s refl p in
            (
              rw c (sym (ok-injective (ap (λ x. x.0) q))),
              subst (Same s) (ap (λ x. x.1) q) (law.get_keeps acct_value (pair_key id denom) s),
            )
        | inr (p, q) ↦
            let c = law.get_missing acct_value (pair_key id denom) s refl p in
            (
              rw c (sym (ok-injective (ap (λ x. x.0) q))),
              subst (Same s) (ap (λ x. x.1) q) (law.get_keeps acct_value (pair_key id denom) s),
            )
      ]
    where
      read : Bytes → M State (Value n.Q)
      read v = pure (record { denom = denom; quant = dbt_to_bq n v n.zero })

      absent : M State (Value n.Q)
      absent = pure (record { denom = denom; quant = n.zero })

  -- What `bq_to_dbt` writes is the amount.
  amount-bq_to_dbt : (q : n.Q) → amount (some (bq_to_dbt n q)) ≡ q
  unfolding dbt_to_bq bq_to_dbt
  amount-bq_to_dbt q =
      rw
        (
          dbt_to_string-string_to_dbt (bq_to_string n q) (bq_to_string-NoNul n nlaw q),
          amount,
          dbt_to_bq,
        )
        (rw (string_to_bq-bq_to_string n nlaw q))

  pub set_value-balance :
      (id : Bytes) (val : Value n.Q) (s s' : State)
      → set_value db n id val s ≡ (ok tt, s')
      → (balance id val.denom s' ≡ val.quant) × Elsewhere (pair_key id val.denom) s s'
  unfolding set_value
  set_value-balance id val s s' h = (
    subst (λ x. balance id val.denom x ≡ val.quant) (ap (λ x. x.1) h)
        (rw (law.put_ok acct_value k v s refl (ap (λ x. x.0) h)) (amount-bq_to_dbt val.quant)),
    subst (Elsewhere k s) (ap (λ x. x.1) h) (λ t j e o. law.put_others acct_value k v s t j o),
  )
    where
      k : Bytes
      k = pair_key id val.denom

      v : Bytes
      v = bq_to_dbt n val.quant

  del_value-balance :
      (id : Bytes) (val : Value n.Q) (s s' : State)
      → del_value db n id val s ≡ (ok tt, s')
      → (balance id val.denom s' ≡ n.zero) × Elsewhere (pair_key id val.denom) s s'
  unfolding del_value
  del_value-balance id val s s' h = (
    subst (λ x. balance id val.denom x ≡ n.zero) g.1 (gone g.0),
    subst (Elsewhere k s) g.1 (λ t j e o. law.del_others acct_value k s t j o),
  )
    where
      k : Bytes
      k = pair_key id val.denom

      g :
          (((db.del acct_value k s).0 ≡ ok tt) ⊎ ((db.del acct_value k s).0 ≡ err not_found))
          × ((db.del acct_value k s).1 ≡ s')
      g = or_missing-eq-ok (db.del acct_value k) s s' h

      gone :
          ((db.del acct_value k s).0 ≡ ok tt) ⊎ ((db.del acct_value k s).0 ≡ err not_found)
          → balance id val.denom (db.del acct_value k s).1 ≡ n.zero
      gone (inl p) = rw (law.del_ok acct_value k s refl p)
      gone (inr p) = rw (law.del_missing acct_value k s refl p)

  pub write_balance-balance :
      (id : Bytes) (val : Value n.Q) (s s' : State)
      → write_balance db n id val s ≡ (ok tt, s')
      → (balance id val.denom s' ≡ val.quant) × Elsewhere (pair_key id val.denom) s s'
  unfolding write_balance
  write_balance-balance id val s s' h = elim (Bool-cases (n.is_zero val.quant)) [
    | inl z ↦
        let d = del_value-balance id val s s' (rw z at h) in
        (d.0 ∙ sym (nlaw.eq_zero val.quant z), d.1)
    | inr z ↦ set_value-balance id val s s' (rw z at h)
  ]

  -- What an operation that moves money has done when it ends well.
  abbrev pub Sets : Bytes → Bytes → n.Q → State → State → Type 0
  Sets id denom q s s' = (balance id denom s' ≡ q) × Elsewhere (pair_key id denom) s s'

  -- A balance is read and written, and an event follows.
  pub Sets-of_steps :
      (id denom : Bytes) (q : n.Q) (s s1 s2 s3 : State)
      → Same s s1
      → Sets id denom q s1 s2
      → Frame db law s2 s3
      → Sets id denom q s s3
  Sets-of_steps id denom q s s1 s2 s3 a b c = (
    ap amount (c acct_value (pair_key id denom) refl) ∙ b.0,
    λ t j e o. c t j e ∙ b.1 t j e o ∙ a t j,
  )

  -- A write of one balance, an event, and the result of the whole.
  pub Sets-of_write :
      {A : Type 0} (id denom : Bytes) (q : n.Q) (m : M State (Unit {0})) (e : M State ℕ) (r b : A)
      (s s' : State)
      → ((s1 s2 : State) → m s1 ≡ (ok tt, s2) → Sets id denom q s1 s2)
      → Keeps db law e
      → (m >> (e >> pure r)) s ≡ (ok b, s')
      → Sets id denom q s s'
  Sets-of_write id denom q m e r b s s' w f h =
      let (u, p, g) = >>=-eq-ok m (λ _. e >> pure r) s s' b h in
      let (i, p', g') = >>=-eq-ok e (λ _. pure r) (m s).1 s' b g in
      Sets-of_steps id denom q s s (m s).1 s' (λ t j. refl) (w s (m s).1 (λ k. (p k, (m s).1)))
        (subst (Frame db law (m s).1) (ap (λ x. x.1) g') (f.frame (m s).1))

  pub result-of_write :
      {A : Type 0} (m : M State (Unit {0})) (e : M State ℕ) (r b : A) (s s' : State)
      → (m >> (e >> pure r)) s ≡ (ok b, s')
      → b ≡ r
  result-of_write m e r b s s' h =
      let (u, p, g) = >>=-eq-ok m (λ _. e >> pure r) s s' b h in
      let (i, p', g') = >>=-eq-ok e (λ _. pure r) (m s).1 s' b g in
      sym (ok-injective (ap (λ x. x.0) g'))

  -- A forced debit that ends well subtracts the amount, whatever is left of the balance, and apart
  -- from the tables of events changes nothing else.
  pub debit_forced-balance :
      (id : Bytes) (v : Value n.Q) (s s' : State)
      → debit_forced db n id v s ≡ (ok tt, s')
      → Sets id v.denom (n.sub (balance id v.denom s) v.quant) s s'
  unfolding debit_forced
  debit_forced-balance id v s s' h =
      let (old, p, q) = >>=-eq-ok read write s s' tt h in
      let (e, same) = get_value-balance id v.denom s (read s).1 old (λ k. (p k, (read s).1)) in
      let new = n.sub (balance id v.denom s) v.quant in
      Sets-of_steps id v.denom new s (read s).1 s' s' same
        (Sets-of_write id v.denom new _ (event_new_debit db n id v) tt tt (read s).1 s'
          (write_balance-balance id (record { denom = v.denom; quant = new }))
          (event_new_debit-Keeps db law n id v) (subst (λ x. write x (read s).1 ≡ (ok tt, s')) e q))
        (λ t j _. refl)
    where
      read : M State (Value n.Q)
      read = get_value db n id (record { denom = v.denom; quant = n.zero })

      write : Value n.Q → M State (Unit {0})
      write old =
          write_balance db n id (record old { quant = n.sub old.quant v.quant })
          >> (event_new_debit db n id v >> pure tt)

  -- A credit that succeeds adds the amount to the balance of the account in that denomination, and
  -- apart from the tables of events changes nothing else.
  pub credit-balance :
      (id : Bytes) (v : Value n.Q) (s s' : State)
      → credit db n id v s ≡ (ok true, s')
      → Sets id v.denom (n.add (balance id v.denom s) v.quant) s s'
  unfolding credit
  credit-balance id v s s' h =
      let (old, p, q) = >>=-eq-ok read write s s' true h in
      let (e, same) = get_value-balance id v.denom s (read s).1 old (λ k. (p k, (read s).1)) in
      let new = n.add (balance id v.denom s) v.quant in
      Sets-of_steps id v.denom new s (read s).1 s' s' same
        (Sets-of_write id v.denom new _ (event_new_credit db n id v) true true (read s).1 s'
          (write_balance-balance id (record { denom = v.denom; quant = new }))
          (event_new_credit-Keeps db law n id v)
          (subst (λ x. write x (read s).1 ≡ (ok true, s')) e q))
        (λ t j _. refl)
    where
      read : M State (Value n.Q)
      read = get_value db n id (record { denom = v.denom; quant = n.zero })

      write : Value n.Q → M State Bool
      write old =
          write_balance db n id (record old { quant = n.add old.quant v.quant })
          >> (event_new_credit db n id v >> pure true)

-- `credit` sets `*success` whenever it returns 0.
pub credit-true :
    (db : Store) (n : Quantity) (id : Bytes) (v : Value n.Q) (b : Bool) (s s' : db.State)
    → credit db n id v s ≡ (ok b, s')
    → b ≡ true
unfolding credit
credit-true db n id v b s s' h =
    let (old, _, q) = >>=-eq-ok read write s s' b h in
    let new = record old { quant = n.add old.quant v.quant } in
    let (_, _, q2) = >>=-eq-ok (write_balance db n id new) (λ _. log) (read s).1 s' b q in
    let (_, _, q3) =
      >>=-eq-ok (event_new_credit db n id v) (λ _. pure true)
        (write_balance db n id new (read s).1).1 s' b q2 in
    sym (ok-injective (ap (λ x. x.0) q3))
  where
    read : M db.State (Value n.Q)
    read = get_value db n id (record { denom = v.denom; quant = n.zero })

    log : M db.State Bool
    log = event_new_credit db n id v >> pure true

    write : Value n.Q → M db.State Bool
    write old = write_balance db n id (record old { quant = n.add old.quant v.quant }) >> log
