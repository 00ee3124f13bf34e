-- ===== src/Bif/Trader/Refusal.antt =====
-- A trader that reports no success has changed nothing (bif/trader.cc).
use d_barter.Base.{
  ℕ, ◌≡◌, refl, ◌∙◌, ap, subst, Bool, true, false, Option, none, some, [], Bool-cases, inl, inr,
  if◌then◌else◌,
}
use d_barter.Base.Bytes.{Bytes}
use d_barter.Bom.Store.{
  Table, offer_index, not_found, minus_one, errno, out_of_fuel, Result, ok, err, M, pure, ◌>>=◌,
  ◌>>◌, Store, set_key, ignore,
}
use d_barter.Bom.Store.Laws.{IsStore}
use d_barter.Bom.Store.Monad.{>>=-eq-ok}
use d_barter.Bom.Offer.{Best, at_key, find_best_offer}
use d_barter.Bom.Acct.Balance.{ok-injective}
use d_barter.Bif.Trader.{apart, trade, execute_from, execute}
use d_barter.Dmath.Quantity.{Quantity, Ratio}

module _ (db : Store) (law : IsStore db) where
  open db use {State, Cursor}
  open law use {content}

  -- The two states hold the same.
  abbrev pub Untouched : State → State → Type 0
  Untouched s s' = (u : Table) (j : Bytes) → content u j s' ≡ content u j s

  -- However the action ends, it has changed nothing.
  record Reads {A : Type 0} (m : M State A) : Type 0 where
    reads : (s : State) → Untouched s (m s).1

  pure-Reads : {A : Type 0} (a : A) → Reads (pure a)
  pure-Reads a = record { reads = λ s u j. refl }

  ignore-Reads : (m : M State (Unit {0})) → Reads m → Reads (ignore m)
  ignore-Reads m h = record { reads = h.reads }

  bind-Reads :
      {A B : Type 0} (m : M State A) (f : A → M State B)
      → Reads m
      → ((a : A) → Reads (f a))
      → Reads (m >>= f)
  bind-Reads {A = A} {B = B} m f h k = record { reads = λ s. go s (m s) (h.reads s) }
    where
      go :
          (s : State) (r : Result A × State)
          → Untouched s r.1
          → Untouched s
              (let x : Result B × State = elim r.0 [ ok a ↦ f a r.1 | err e ↦ (err e, r.1) ] in x).1
      go s (ok a, s') p = λ u j. (k a).reads s' u j ∙ p u j
      go s (err e, s') p = p

  at_key-Reads :
      {A : Type 0} (c : Cursor) (k : Bytes) (go : Bytes × Bytes → M State A) (missing : M State A)
      → ((kv : Bytes × Bytes) → Reads (go kv))
      → Reads missing
      → Reads (at_key db c k go missing)
  unfolding at_key
  at_key-Reads {A = A} c k go missing h m = record {
    reads = λ s. step s (db.c_get c set_key k [] s) (law.c_get_keeps c set_key k [] s);
  }
    where
      step :
          (s : State) (r : Result (Bytes × Bytes) × State)
          → Untouched s r.1
          → Untouched s
              (let x : Result A × State = elim r.0 [
                | ok kv ↦ go kv r.1
                | err e ↦ elim e [
                  | not_found ↦ missing r.1
                  | other ↦ (err other, (db.c_close c r.1).1)
                ]
              ] in
                x).1
      step s (ok kv, s') p = λ u j. (h kv).reads s' u j ∙ p u j
      step s (err not_found, s') p = λ u j. m.reads s' u j ∙ p u j
      step s (err minus_one, s') p = λ u j. law.c_close_keeps c s' u j ∙ p u j
      step s (err (errno i), s') p = λ u j. law.c_close_keeps c s' u j ∙ p u j
      step s (err out_of_fuel, s') p = λ u j. law.c_close_keeps c s' u j ∙ p u j

  close-Reads : (c : Cursor) → Reads (db.c_close c)
  close-Reads c = record { reads = law.c_close_keeps c }

  module _ (n : Quantity) where
    find_best_offer-Reads : (ask bid : Bytes) (old : n.Q) → Reads (find_best_offer db n ask bid old)
    unfolding find_best_offer
    find_best_offer-Reads ask bid old =
        bind-Reads (db.cursor offer_index) _ (record { reads = law.cursor_keeps offer_index })
          (λ c.
            at_key-Reads c _ _ _
              (λ kv. bind-Reads (db.c_close c) _ (close-Reads c) (λ _. pure-Reads _))
              (bind-Reads (ignore (db.c_close c)) _ (ignore-Reads _ (close-Reads c))
                (λ _. pure-Reads none)))

    -- An action that changes nothing, and another that changes nothing when it returns false.
    bind-refused :
        {A : Type 0} (m : M State A) (f : A → M State Bool) (s s' : State)
        → Reads m
        → ((a : A) (s1 : State) → f a s1 ≡ (ok false, s') → Untouched s1 s')
        → (m >>= f) s ≡ (ok false, s')
        → Untouched s s'
    bind-refused m f s s' h k e =
        let (a, p, q) = >>=-eq-ok m f s s' false e in λ u j. k a (m s).1 q u j ∙ h.reads s u j

    -- What only returns, or trades and returns true, changes nothing when it returns false.
    pure-refused :
        (b : Bool) (s s' : State) → pure {S = State} b s ≡ (ok false, s') → Untouched s s'
    pure-refused b s s' e = subst (Untouched s) (ap (λ r. r.1) e) (λ u j. refl)

    done-refused :
        (m : M State (Unit {0})) (s s' : State)
        → (m >> pure true) s ≡ (ok false, s')
        → Untouched s s'
    done-refused m s s' e =
        let (a, p, q) = >>=-eq-ok m (λ _. pure true) s s' false e in
        cc (ok-injective (ap (λ r. r.0) q))

    module _ (t : Ratio n) where
      execute_from-refused :
          (fuel : ℕ) (d0 d1 : Bytes) (best : Best n.Q) (s s' : State)
          → execute_from db n t fuel d0 d1 best s ≡ (ok false, s')
          → Untouched s s'
      unfolding execute_from
      execute_from-refused fuel d0 d1 best0 s s' e =
          bind-refused (find_best_offer db n d1 d0 n.zero) _ s s'
            (find_best_offer-Reads d1 d0 n.zero) cross e
        where
          cross :
              (b : Option (Best n.Q)) (s1 : State)
              → (let x : M State Bool = elim b [
                | none ↦ pure false
                | some best1 ↦
                    if apart n t best0.ratio best1.ratio
                    then pure false
                    else (trade db n t fuel best0.offer best1.offer >> pure true)
              ] in
                    x)
                  s1
                ≡ (ok false, s')
              → Untouched s1 s'
          cross none s1 e = pure-refused false s1 s' e
          cross (some best1) s1 e = elim (Bool-cases (apart n t best0.ratio best1.ratio)) [
            | inl far ↦ pure-refused false s1 s' (rw far at e)
            | inr near ↦
                done-refused (trade db n t fuel best0.offer best1.offer) s1 s' (rw near at e)
          ]

      -- A trader that ends without a database error and reports no success has changed nothing.
      pub execute-refused :
          (fuel : ℕ) (d0 d1 : Bytes) (s s' : State)
          → execute db n t fuel d0 d1 s ≡ (ok false, s')
          → Untouched s s'
      unfolding execute
      execute-refused fuel d0 d1 s s' e =
          bind-refused (find_best_offer db n d0 d1 n.zero) _ s s'
            (find_best_offer-Reads d0 d1 n.zero) first e
        where
          first :
              (b : Option (Best n.Q)) (s1 : State)
              → (let x : M State Bool = elim b [
                | none ↦ pure false
                | some best0 ↦ execute_from db n t fuel d0 d1 best0
              ] in
                    x)
                  s1
                ≡ (ok false, s')
              → Untouched s1 s'
          first none s1 e = pure-refused false s1 s' e
          first (some best0) s1 e = execute_from-refused fuel d0 d1 best0 s1 s' e
