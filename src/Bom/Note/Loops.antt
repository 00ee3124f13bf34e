-- ===== src/Bom/Note/Loops.antt =====
-- The loops of bom/note.cc over the values of a note end: a cursor has a finite number of records
-- behind it.
use d_barter.Base.{ℕ, ◌≤◌, ◌≢◌, false}
use d_barter.Base.Bytes.{Bytes}
use d_barter.Bom.Store.{note_value, out_of_fuel, err, Store}
use d_barter.Bom.Store.Laws.{IsStore}
use d_barter.Bom.Portfolio.Loops.{portfolio_room}
use d_barter.Bom.Portfolio.Loops
use d_barter.Bom.Note.{get_portfolio, del_portfolio}
use d_barter.Dmath.Quantity.{Quantity}

module _ (db : Store) (law : IsStore db) (n : Quantity) where
  open db use {State}

  -- With one unit of fuel more than there are records behind the first value of the note,
  -- `get_portfolio` comes to its end.
  pub get_portfolio-ne-out_of_fuel :
      (fuel : ℕ) (id : Bytes) (s : State)
      → portfolio_room db law false note_value n id s ≤ fuel
      → (get_portfolio db n fuel id s).0 ≢ err out_of_fuel
  unfolding get_portfolio
  get_portfolio-ne-out_of_fuel fuel id s enough =
      Loops.values-ne-out_of_fuel db law false note_value n fuel id s enough

  -- With one unit of fuel more than there are records behind the first value of the note,
  -- `del_portfolio` comes to its end.
  pub del_portfolio-ne-out_of_fuel :
      (fuel : ℕ) (id : Bytes) (s : State)
      → portfolio_room db law false note_value n id s ≤ fuel
      → (del_portfolio db n fuel id s).0 ≢ err out_of_fuel
  unfolding del_portfolio
  del_portfolio-ne-out_of_fuel fuel id s enough =
      Loops.del_values-ne-out_of_fuel db law false note_value n fuel id s enough
