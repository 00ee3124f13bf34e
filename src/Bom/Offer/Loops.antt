-- ===== src/Bom/Offer/Loops.antt =====
-- The loops of bom/offer.cc over the index of offers end: a cursor has a finite number of duplicates
-- behind it.
use d_barter.Base.{
  ℕ, zero, suc, ◌<◌, ◌≤◌, ◌≡◌, ◌≢◌, refl, inl, inr, List, [], ◌∷◌, arith, Bool-cases,
}
use d_barter.Base.Bytes.{Bytes, str_eq}
use d_barter.Bom.Store.{
  offer_index, not_found, out_of_fuel, Result, ok, err, M, pure, ◌>>=◌, ◌>>◌, Store, set_key,
  next_dup, ignore,
}
use d_barter.Bom.Store.Laws.{IsStore}
use d_barter.Bom.Store.Fuel.{Runs, close-Runs, other-Runs, closed-Runs, del_entry-Runs}
use d_barter.Bom.Text.{dbt_to_string, pair_key}
use d_barter.Bom.Offer.{del_from, at_key, del_index, collect, find_all_offers}

module _ (db : Store) (law : IsStore db) where
  open db use {State, Cursor}

  -- With more fuel than there are duplicates behind the cursor, the list is complete.
  collect-Runs :
      (fuel : ℕ) (c : Cursor) (k v : Bytes) (ol : List Bytes) (s : State)
      → law.c_left c s < fuel
      → Runs db law (collect db fuel c k v ol s)
  unfolding collect
  collect-Runs zero c k v ol s lt = absurd (omega arith)
  collect-Runs (suc fuel) c k v ol s lt =
      step (db.c_get c next_dup k [] s) (law.c_get_runs c next_dup k [] s) (λ kv e.
        collect-Runs fuel c kv.0 kv.1 (dbt_to_string v ∷ ol) _
          (omega (arith, law.c_get_next c next_dup k [] s kv refl e)))
    where
      step :
          (r : Result (Bytes × Bytes) × State)
          → r.0 ≢ err out_of_fuel
          → ((kv : Bytes × Bytes)
              → r.0 ≡ ok kv
              → Runs db law (collect db fuel c kv.0 kv.1 (dbt_to_string v ∷ ol) r.1))
          → Runs db law {A = List Bytes} (elim r.0 [
            | ok (k', v') ↦ collect db fuel c k' v' (dbt_to_string v ∷ ol) r.1
            | err e ↦ elim e [
              | not_found ↦ (db.c_close c >> pure (dbt_to_string v ∷ ol)) r.1
              | other ↦ (err other, (db.c_close c r.1).1)
            ]
          ])
      step (ok (k', v'), s') h more = more (k', v') refl
      step (err e, s') h more =
          other-Runs db law c e (db.c_close c >> pure (dbt_to_string v ∷ ol)) s'
            (record { runs = λ q. h (cc q) }) (closed-Runs db law c _ s')

  del_from-Runs :
      (fuel : ℕ) (c : Cursor) (id k v : Bytes) (s : State)
      → law.c_left c s < fuel
      → Runs db law (del_from db fuel c id k v s)
  unfolding del_from
  del_from-Runs zero c id k v s lt = absurd (omega arith)
  del_from-Runs (suc fuel) c id k v s lt = elim (Bool-cases (str_eq (dbt_to_string v) id)) [
    | inl same ↦ rw same (del_entry-Runs db law c s)
    | inr other ↦ rw other (
        step (db.c_get c next_dup k [] s) (law.c_get_runs c next_dup k [] s) (λ kv e.
          del_from-Runs fuel c id kv.0 kv.1 _
            (omega (arith, law.c_get_next c next_dup k [] s kv refl e))))
  ]
    where
      step :
          (r : Result (Bytes × Bytes) × State)
          → r.0 ≢ err out_of_fuel
          → ((kv : Bytes × Bytes) → r.0 ≡ ok kv → Runs db law (del_from db fuel c id kv.0 kv.1 r.1))
          → Runs db law {A = Unit {0}} (elim r.0 [
            | ok (k', v') ↦ del_from db fuel c id k' v' r.1
            | err e ↦ elim e [
              | not_found ↦ db.c_close c r.1
              | other ↦ (err other, (db.c_close c r.1).1)
            ]
          ])
      step (ok (k', v'), s') h more = more (k', v') refl
      step (err e, s') h more =
          other-Runs db law c e (db.c_close c) s' (record { runs = λ q. h (cc q) })
            (close-Runs db law c s')

  -- Fuel that is enough for a loop over the offers of a pair of denominations: one more than there are
  -- duplicates behind the cursor on their first record.
  abbrev pub room : Bytes → Bytes → State → ℕ
  room ask bid s = elim (db.cursor offer_index s).0 [
    | ok c ↦
        suc (law.c_left c (db.c_get c set_key (pair_key ask bid) [] (db.cursor offer_index s).1).1)
    | err e ↦ 0
  ]

  at_key-Runs :
      {A : Type 0} (c : Cursor) (k : Bytes) (go : Bytes × Bytes → M State A) (missing : M State A)
      (s : State)
      → ((kv : Bytes × Bytes) → Runs db law (go kv (db.c_get c set_key k [] s).1))
      → ((s' : State) → Runs db law (missing s'))
      → Runs db law (at_key db c k go missing s)
  unfolding at_key
  at_key-Runs {A = A} c k go missing s h m =
      step (db.c_get c set_key k [] s) (law.c_get_runs c set_key k [] s) h
    where
      step :
          (r : Result (Bytes × Bytes) × State)
          → r.0 ≢ err out_of_fuel
          → ((kv : Bytes × Bytes) → Runs db law (go kv r.1))
          → Runs db law {A = A} (elim r.0 [
            | ok kv ↦ go kv r.1
            | err e ↦ elim e [ not_found ↦ missing r.1 | other ↦ (err other, (db.c_close c r.1).1) ]
          ])
      step (ok kv, s') n h = h kv
      step (err e, s') n h =
          other-Runs db law c e missing s' (record { runs = λ q. n (cc q) }) (m s')

  -- A loop that starts at the first record of a pair.
  over_pair-Runs :
      {A : Type 0} (ask bid : Bytes) (go : Cursor → Bytes × Bytes → M State A)
      (missing : Cursor → M State A) (fuel : ℕ) (s : State)
      → ((c : Cursor) (kv : Bytes × Bytes) (s' : State)
          → law.c_left c s' < fuel
          → Runs db law (go c kv s'))
      → ((c : Cursor) (s' : State) → Runs db law (missing c s'))
      → room ask bid s ≤ fuel
      → Runs db law
          ((db.cursor offer_index >>= λ c. at_key db c (pair_key ask bid) (go c) (missing c)) s)
  over_pair-Runs {A = A} ask bid go missing fuel s h m enough =
      step (db.cursor offer_index s) (law.cursor_runs offer_index s) enough
    where
      step :
          (r : Result Cursor × State)
          → r.0 ≢ err out_of_fuel
          → (elim r.0 [
            | ok c ↦ suc (law.c_left c (db.c_get c set_key (pair_key ask bid) [] r.1).1)
            | err e ↦ 0
          ])
            ≤ fuel
          → Runs db law {A = A} (elim r.0 [
            | ok c ↦ at_key db c (pair_key ask bid) (go c) (missing c) r.1
            | err e ↦ (err e, r.1)
          ])
      step (ok c, s') n le =
          at_key-Runs c (pair_key ask bid) (go c) (missing c) s'
            (λ kv. h c kv _ (omega (arith, le))) (m c)
      step (err e, s') n le = record { runs = λ q. n (cc q) }

  -- With one unit of fuel more than there are duplicates behind the first offer of the pair,
  -- `find_all_offers` comes to its end.
  pub find_all_offers-ne-out_of_fuel :
      (fuel : ℕ) (ask bid : Bytes) (s : State)
      → room ask bid s ≤ fuel
      → (find_all_offers db fuel ask bid s).0 ≢ err out_of_fuel
  unfolding find_all_offers
  find_all_offers-ne-out_of_fuel fuel ask bid s enough =
      (over_pair-Runs ask bid (λ c kv. collect db fuel c kv.0 kv.1 [])
        (λ c. ignore (db.c_close c) >> pure []) fuel s
        (λ c kv s' lt. collect-Runs fuel c kv.0 kv.1 [] s' lt) (λ c s'. record { runs = λ q. cc })
        enough).runs

  -- With one unit of fuel more than there are duplicates behind the first offer of the pair,
  -- `del_index` comes to its end.
  pub del_index-ne-out_of_fuel :
      (fuel : ℕ) (id ask bid : Bytes) (s : State)
      → room ask bid s ≤ fuel
      → (del_index db fuel id ask bid s).0 ≢ err out_of_fuel
  unfolding del_index
  del_index-ne-out_of_fuel fuel id ask bid s enough =
      (over_pair-Runs ask bid (λ c kv. del_from db fuel c id kv.0 kv.1) db.c_close fuel s
        (λ c kv s' lt. del_from-Runs fuel c id kv.0 kv.1 s' lt) (close-Runs db law) enough).runs
