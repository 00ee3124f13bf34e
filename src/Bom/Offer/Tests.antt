-- ===== src/Bom/Offer/Tests.antt =====
-- Runs of the operations on offers on the database in memory.
use d_barter.Base.{◌≢◌, ◌≤◌, [], arith}
use d_barter.Base.Bytes.{codes}
use d_barter.Base.Int.{ℤ, pos}
use d_barter.Bom.Store.{offer_index, out_of_fuel, set_key, err}
use d_barter.Bom.Store.Memory.{Memory, no_rows, memory, memory-IsStore, c_left-memory}
use d_barter.Bom.Text.{pair_key}
use d_barter.Bom.Value.{Value}
use d_barter.Bom.Offer.{set_bid_value, set_ask_value, set_index_at, del_index, find_all_offers}
use d_barter.Bom.Offer.Loops.{room, find_all_offers-ne-out_of_fuel, del_index-ne-out_of_fuel}
use d_barter.Dmath.Quantity.Hundredths.{hundredths}

abbrev usd_bid : Value ℤ
usd_bid = record { denom = codes "USD"; quant = pos 200 }

abbrev eur_ask : Value ℤ
eur_ask = record { denom = codes "EUR"; quant = pos 100 }

abbrev bid_state : Memory
bid_state = (set_bid_value memory hundredths (codes "o") usd_bid no_rows).1

abbrev ask_state : Memory
ask_state = (set_ask_value memory hundredths (codes "o") eur_ask bid_state).1

abbrev index_state : Memory
index_state =
    (set_index_at memory hundredths (codes "o") (codes "EUR") (codes "USD") (pos 1) no_rows).1

index_room : room memory memory-IsStore (codes "EUR") (codes "USD") index_state ≤ 1
index_room = omega (
  arith,
  c_left-memory offer_index
      (memory.c_get offer_index set_key (pair_key (codes "EUR") (codes "USD")) [] index_state).1,
)

find_all_offers-ne-out_of_fuel_example :
    (find_all_offers memory 1 (codes "EUR") (codes "USD") index_state).0 ≢ err out_of_fuel
find_all_offers-ne-out_of_fuel_example =
    find_all_offers-ne-out_of_fuel memory memory-IsStore 1 (codes "EUR") (codes "USD") index_state
      index_room

del_index-ne-out_of_fuel_example :
    (del_index memory 1 (codes "o") (codes "EUR") (codes "USD") index_state).0 ≢ err out_of_fuel
del_index-ne-out_of_fuel_example =
    del_index-ne-out_of_fuel memory memory-IsStore 1 (codes "o") (codes "EUR") (codes "USD")
      index_state index_room
