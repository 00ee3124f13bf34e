-- ===== src/Bom/Portfolio/Loops.antt =====
-- The loops of bom/acct.cc and bom/note.cc over the records of an owner end: a cursor has a finite number of records
-- behind it.
use d_barter.Base.{
  ℕ, zero, suc, ◌<◌, ◌≤◌, ◌≡◌, ◌≢◌, refl, sym, ap, ◌∙◌, Bool, true, false, inl, inr, Bool-cases,
  if◌then◌else◌, Option, none, some, List, [], ◌∷◌, arith,
}
use d_barter.Base.Bytes.{Bytes, str_eq}
use d_barter.Bom.Store.{
  Table, not_found, minus_one, errno, out_of_fuel, Result, ok, err, M, ◌>>=◌, Store, set_range,
  next_record, on_error,
}
use d_barter.Bom.Store.Laws.{IsStore}
use d_barter.Bom.Store.Fuel.{Runs, close-Runs, closed-Runs}
use d_barter.Bom.Text.{string_to_dbt, dbt_to_string, behind_nul}
use d_barter.Bom.Value.{Value}
use d_barter.Bom.Portfolio.{
  amount_of, value_at, get_value_first, get_value_next, read_values, get_portfolio, del_values,
  del_portfolio,
}
use d_barter.Dmath.Bq.{string_to_bq}
use d_barter.Dmath.Quantity.{Quantity}

module _ (db : Store) (law : IsStore db) (strict : Bool) (t : Table) (n : Quantity) where
  open db use {State, Cursor}

  amount_of-runs :
      (denom : Bytes) (old : n.Q) (q : Option n.Q)
      → amount_of db strict t n denom old q ≢ err out_of_fuel
  unfolding amount_of
  amount_of-runs denom old (some q) e = cc
  amount_of-runs denom old none e = elim (Bool-cases strict) [
    | inl b ↦ not_minus_one (sym (ap chosen b) ∙ e)
    | inr b ↦ not_kept (sym (ap chosen b) ∙ e)
  ]
    where
      chosen : Bool → Result (Option (Value n.Q))
      chosen b = if b then err minus_one else ok (some (record { denom = denom; quant = old }))

      not_minus_one : ¬ chosen true ≡ err out_of_fuel
      not_minus_one p = cc

      not_kept : ¬ chosen false ≡ err out_of_fuel
      not_kept p = cc

  value_at-runs :
      (id : Bytes) (old : Value n.Q) (kv : Bytes × Bytes)
      → value_at db strict t n id old kv ≢ err out_of_fuel
  unfolding value_at
  value_at-runs id old (k, v) =
      either (str_eq (dbt_to_string k) id)
        (amount_of-runs (dbt_to_string (behind_nul k)) old.quant (string_to_bq n (dbt_to_string v)))
    where
      either :
          {x : Result (Option (Value n.Q))} (b : Bool)
          → x ≢ err out_of_fuel
          → (let r = if b then x else ok none in r) ≢ err out_of_fuel
      either true h e = h e
      either false h e = cc

  -- A read of a value at the cursor, closed after an error, that goes on: from what the read has found,
  -- with what it has left behind the cursor, or from none.
  step-Runs :
      {A : Type 0} (c : Cursor) (id : Bytes) (old : Value n.Q) (go : Option (Value n.Q) → M State A)
      (r : Result (Bytes × Bytes) × State)
      → r.0 ≢ err out_of_fuel
      → ((kv : Bytes × Bytes) (v : Option (Value n.Q)) → r.0 ≡ ok kv → Runs db law (go v r.1))
      → ((s' : State) → Runs db law (go none s'))
      → Runs db law {A = A} (
          (on_error
                (λ (_ : State).
                  let x : Result (Option (Value n.Q)) × State = elim r.0 [
                    | ok kv ↦ (value_at db strict t n id old kv, r.1)
                    | err e ↦ elim e [ not_found ↦ (ok none, r.1) | other ↦ (err other, r.1) ]
                  ] in
                  x)
                (db.c_close c)
              >>= go)
            r.1)
  step-Runs {A} c id old go (ok kv, s') h k m =
      found (value_at db strict t n id old kv) (value_at-runs id old kv) (λ v. k kv v refl)
    where
      found :
          (x : Result (Option (Value n.Q)))
          → x ≢ err out_of_fuel
          → ((v : Option (Value n.Q)) → Runs db law (go v s'))
          → Runs db law {A = A} ((on_error (λ (_ : State). (x, s')) (db.c_close c) >>= go) s')
      found (ok v) g more = more v
      found (err e) g more = record { runs = λ q. g (cc q) }
  step-Runs c id old go (err not_found, s') h k m = m s'
  step-Runs c id old go (err minus_one, s') h k m = record { runs = λ q. cc }
  step-Runs c id old go (err (errno i), s') h k m = record { runs = λ q. cc }
  step-Runs c id old go (err out_of_fuel, s') h k m = absurd (h refl)

  none-Runs :
      (fuel : ℕ) (c : Cursor) (id : Bytes) (vl : List (Value n.Q)) (s : State)
      → Runs db law (read_values db strict t n fuel c id none vl s)
  unfolding read_values
  none-Runs zero c id vl s = closed-Runs db law c vl s
  none-Runs (suc fuel) c id vl s = closed-Runs db law c vl s

  read_values-Runs :
      (fuel : ℕ) (c : Cursor) (id : Bytes) (val : Option (Value n.Q)) (vl : List (Value n.Q))
      (s : State)
      → law.c_left c s < fuel
      → Runs db law (read_values db strict t n fuel c id val vl s)
  unfolding read_values get_value_next
  read_values-Runs fuel c id none vl s lt = none-Runs fuel c id vl s
  read_values-Runs zero c id (some val) vl s lt = absurd (omega arith)
  read_values-Runs (suc fuel) c id (some val) vl s lt =
      step-Runs c id val (λ next. read_values db strict t n fuel c id next (val ∷ vl))
        (db.c_get c next_record [] [] s) (law.c_get_runs c next_record [] [] s)
        (λ kv v e.
          read_values-Runs fuel c id v (val ∷ vl) _
            (omega (arith, law.c_get_next c next_record [] [] s kv refl e)))
        (none-Runs fuel c id (val ∷ vl))

  gone-Runs :
      (fuel : ℕ) (c : Cursor) (id : Bytes) (s : State)
      → Runs db law (del_values db strict t n fuel c id none s)
  unfolding del_values
  gone-Runs zero c id s = close-Runs db law c s
  gone-Runs (suc fuel) c id s = close-Runs db law c s

  del_values-Runs :
      (fuel : ℕ) (c : Cursor) (id : Bytes) (val : Option (Value n.Q)) (s : State)
      → law.c_left c s < fuel
      → Runs db law (del_values db strict t n fuel c id val s)
  unfolding del_values get_value_next
  del_values-Runs fuel c id none s lt = gone-Runs fuel c id s
  del_values-Runs zero c id (some val) s lt = absurd (omega arith)
  del_values-Runs (suc fuel) c id (some val) s lt =
      behind (db.c_del c s) (law.c_del_runs c s) (law.c_del_left c s)
        (λ v s' l. del_values-Runs fuel c id v s' l)
    where
      next : Unit {0} → M State (Unit {0})
      next _ =
          on_error (get_value_next db strict t n c id val) (db.c_close c)
          >>= del_values db strict t n fuel c id

      behind :
          (r : Result (Unit {0}) × State)
          → r.0 ≢ err out_of_fuel
          → law.c_left c r.1 ≤ law.c_left c s
          → ((v : Option (Value n.Q)) (s' : State)
              → law.c_left c s' < fuel
              → Runs db law (del_values db strict t n fuel c id v s'))
          → Runs db law {A = Unit {0}} ((on_error (λ (_ : State). r) (db.c_close c) >>= next) s)
      behind (ok a, s') h le more =
          step-Runs c id val (del_values db strict t n fuel c id) (db.c_get c next_record [] [] s')
            (law.c_get_runs c next_record [] [] s')
            (λ kv v e. more v _ (omega (arith, law.c_get_next c next_record [] [] s' kv refl e)))
            (gone-Runs fuel c id)
      behind (err e, s') h le more = record { runs = λ q. h (cc q) }

  -- Fuel that is enough for a loop over the values of an owner: one more than there are records behind the
  -- cursor on the first of them.
  abbrev pub portfolio_room : Bytes → State → ℕ
  portfolio_room id s = elim (db.cursor t s).0 [
    | ok c ↦ suc (law.c_left c (db.c_get c set_range (string_to_dbt id) [] (db.cursor t s).1).1)
    | err e ↦ 0
  ]

  -- A loop that starts at the first value of an owner.
  over_owner-Runs :
      {A : Type 0} (fuel : ℕ) (id : Bytes) (go : Cursor → Option (Value n.Q) → M State A)
      (s : State)
      → ((c : Cursor) (val : Option (Value n.Q)) (s' : State)
          → law.c_left c s' < fuel
          → Runs db law (go c val s'))
      → ((c : Cursor) (s' : State) → Runs db law (go c none s'))
      → portfolio_room id s ≤ fuel
      → Runs db law (
          (db.cursor t >>= λ c.
          on_error
            (get_value_first db strict t n c id (record { denom = []; quant = n.zero }))
            (db.c_close c)
          >>= go c)
            s)
  unfolding get_value_first
  over_owner-Runs {A = A} fuel id go s h m enough =
      step (db.cursor t s) (law.cursor_runs t s) enough
    where
      step :
          (r : Result Cursor × State)
          → r.0 ≢ err out_of_fuel
          → (elim r.0 [
            | ok c ↦ suc (law.c_left c (db.c_get c set_range (string_to_dbt id) [] r.1).1)
            | err e ↦ 0
          ])
            ≤ fuel
          → Runs db law {A = A} (elim r.0 [
            | ok c ↦
                (on_error
                      (get_value_first db strict t n c id (record { denom = []; quant = n.zero }))
                      (db.c_close c)
                    >>= go c)
                  r.1
            | err e ↦ (err e, r.1)
          ])
      step (ok c, s') k le =
          step-Runs c id _ (go c) (db.c_get c set_range (string_to_dbt id) [] s')
            (law.c_get_runs c set_range (string_to_dbt id) [] s')
            (λ kv v _. h c v _ (omega (arith, le))) (m c)
      step (err e, s') k le = record { runs = λ q. k (cc q) }

  -- With one unit of fuel more than there are records behind the first value of the owner,
  -- `get_portfolio` comes to its end.
  pub values-ne-out_of_fuel :
      (fuel : ℕ) (id : Bytes) (s : State)
      → portfolio_room id s ≤ fuel
      → (get_portfolio db strict t n fuel id s).0 ≢ err out_of_fuel
  unfolding get_portfolio
  values-ne-out_of_fuel fuel id s enough =
      (over_owner-Runs fuel id (λ c val. read_values db strict t n fuel c id val []) s
        (λ c val s' lt. read_values-Runs fuel c id val [] s' lt) (λ c s'. none-Runs fuel c id [] s')
        enough).runs

  -- With one unit of fuel more than there are records behind the first value of the owner,
  -- `del_portfolio` comes to its end.
  pub del_values-ne-out_of_fuel :
      (fuel : ℕ) (id : Bytes) (s : State)
      → portfolio_room id s ≤ fuel
      → (del_portfolio db strict t n fuel id s).0 ≢ err out_of_fuel
  unfolding del_portfolio
  del_values-ne-out_of_fuel fuel id s enough =
      (over_owner-Runs fuel id (λ c val. del_values db strict t n fuel c id val) s
        (λ c val s' lt. del_values-Runs fuel c id val s' lt) (λ c s'. gone-Runs fuel c id s')
        enough).runs
