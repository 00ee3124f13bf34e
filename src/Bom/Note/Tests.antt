-- ===== src/Bom/Note/Tests.antt =====
-- The portfolio of a note on the database in memory.
use d_barter.Base.{false, ◌≢◌, ◌≤◌, arith, []}
use d_barter.Base.Bytes.{codes}
use d_barter.Base.Int.{pos}
use d_barter.Bom.Store.{note_value, out_of_fuel, set_range, err}
use d_barter.Bom.Store.Memory.{Memory, no_rows, memory, memory-IsStore, c_left-memory}
use d_barter.Bom.Text.{string_to_dbt}
use d_barter.Bom.Note.{set_value, get_portfolio, del_portfolio}
use d_barter.Bom.Portfolio.Loops.{portfolio_room}
use d_barter.Bom.Note.Loops.{get_portfolio-ne-out_of_fuel, del_portfolio-ne-out_of_fuel}
use d_barter.Dmath.Quantity.Hundredths.{hundredths}

abbrev one_value : Memory
one_value =
    (set_value memory hundredths (codes "n") (record { denom = codes "USD"; quant = pos 2 })
      no_rows).1

note_room :
    portfolio_room memory memory-IsStore false note_value hundredths (codes "n") one_value ≤ 1
note_room = omega (
  arith,
  c_left-memory note_value
      (memory.c_get note_value set_range (string_to_dbt (codes "n")) [] one_value).1,
)

get_portfolio-ne-out_of_fuel_example :
    (get_portfolio memory hundredths 1 (codes "n") one_value).0 ≢ err out_of_fuel
get_portfolio-ne-out_of_fuel_example =
    get_portfolio-ne-out_of_fuel memory memory-IsStore hundredths 1 (codes "n") one_value note_room

del_portfolio-ne-out_of_fuel_example :
    (del_portfolio memory hundredths 1 (codes "n") one_value).0 ≢ err out_of_fuel
del_portfolio-ne-out_of_fuel_example =
    del_portfolio-ne-out_of_fuel memory memory-IsStore hundredths 1 (codes "n") one_value note_room
