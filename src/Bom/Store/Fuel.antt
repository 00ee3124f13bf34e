-- ===== src/Bom/Store/Fuel.antt =====
-- Runs of the methods of bom/ that do not use up their fuel.
use d_barter.Base.{◌≢◌}
use d_barter.Bom.Store.{
  Error, not_found, minus_one, errno, out_of_fuel, Result, ok, err, M, pure, ◌>>=◌, ◌>>◌, Store,
  on_error,
}
use d_barter.Bom.Store.Laws.{IsStore}

module _ (db : Store) (law : IsStore db) where
  open db use {State, Cursor}

  -- A run that has not used up its fuel.
  pub record Runs {A : Type 0} (r : Result A × State) : Type 0 where
    pub runs : r.0 ≢ err out_of_fuel

  pub bind-Runs :
      {A B : Type 0} (m : M State A) (f : A → M State B) (s : State)
      → Runs (m s)
      → ((a : A) (s' : State) → Runs (f a s'))
      → Runs ((m >>= f) s)
  bind-Runs {A = A} {B = B} m f s h k = go (m s) h
    where
      go :
          (r : Result A × State)
          → Runs {A = A} r
          → Runs {A = B} (elim r.0 [ ok a ↦ f a r.1 | err e ↦ (err e, r.1) ])
      go (ok a, s') h = k a s'
      go (err e, s') h = record { runs = λ q. h.runs (cc q) }

  pub close-Runs : (c : Cursor) (s : State) → Runs (db.c_close c s)
  close-Runs c s = record { runs = law.c_close_runs c s }

  -- An error that is met at the cursor, which is then closed.
  pub other-Runs :
      {A : Type 0} (c : Cursor) (e : Error) (m : M State A) (s : State)
      → Runs {A = A} (err e, s)
      → Runs (m s)
      → Runs {A = A} (elim e [ not_found ↦ m s | other ↦ (err other, (db.c_close c s).1) ])
  other-Runs c not_found m s h k = k
  other-Runs c minus_one m s h k = record { runs = h.runs }
  other-Runs c (errno i) m s h k = record { runs = h.runs }
  other-Runs c out_of_fuel m s h k = record { runs = h.runs }

  pub closed-Runs :
      {A : Type 0} (c : Cursor) (a : A) (s : State) → Runs ((db.c_close c >> pure a) s)
  closed-Runs c a s =
      bind-Runs (db.c_close c) (λ _. pure a) s (close-Runs c s) (λ _ s'. record { runs = λ q. cc })

  pub del_entry-Runs :
      (c : Cursor) (s : State) → Runs ((on_error (db.c_del c) (db.c_close c) >> db.c_close c) s)
  del_entry-Runs c s =
      bind-Runs (on_error (db.c_del c) (db.c_close c)) (λ _. db.c_close c) s
        (step (db.c_del c s) (law.c_del_runs c s)) (λ _ s'. close-Runs c s')
    where
      step :
          (r : Result (Unit {0}) × State)
          → r.0 ≢ err out_of_fuel
          → Runs {A = Unit {0}}
              (elim r.0 [ ok a ↦ (ok a, r.1) | err e ↦ (err e, (db.c_close c r.1).1) ])
      step (ok a, s') h = record { runs = h }
      step (err e, s') h = record { runs = h }

  pub on_error-Runs :
      {A : Type 0} (m : M State A) (undo : M State (Unit {0})) (s : State)
      → Runs (m s)
      → Runs (on_error m undo s)
  on_error-Runs {A = A} m undo s h = step (m s) h
    where
      step :
          (r : Result A × State)
          → Runs {A = A} r
          → Runs {A = A} (elim r.0 [ ok a ↦ (ok a, r.1) | err e ↦ (err e, (undo r.1).1) ])
      step (ok a, s') h = record { runs = h.runs }
      step (err e, s') h = record { runs = h.runs }
