-- ===== src/Bif/Trader/Tests.antt =====
-- Two offers that meet: 2 of X asked for 2 of Y, and 4 of Y asked for 8 of X.
use d_barter.Base.{◌≡◌, refl, false, some, Option}
use d_barter.Base.Int.{ℤ, pos}
use d_barter.Base.Bytes.{codes}
use d_barter.Bom.Store.{ok}
use d_barter.Bom.Store.Memory.{no_rows, memory, memory-IsStore}
use d_barter.Bom.Offer.{find_best_offer, at_key}
use d_barter.Bif.Trader.Refusal.{Untouched, execute-refused}
use d_barter.Bif.Trader.{execute, Pair, apart, fill}
use d_barter.Bif.Trader.Fair.{IsIndexed, IsFair, fill-IsFair}
use d_barter.Dmath.Quantity.Powers.{powers, powers_ratio, powers-IsRatio}

abbrev two_offers : Pair (Option ℤ)
two_offers = record {
  ask0 = some (pos 1);
  bid0 = some (pos 1);
  ask1 = some (pos 2);
  bid1 = some (pos 3);
}

abbrev half : Option ℤ
half = powers_ratio.div (some (pos 2)) (some (pos 3))

two_offers-IsIndexed : IsIndexed powers powers_ratio powers-IsRatio two_offers (some (pos 0)) half
two_offers-IsIndexed = record {
  ask0_pos = refl;
  bid0_pos = refl;
  ask1_pos = refl;
  bid1_pos = refl;
  ratio0_bid = refl;
  ratio1_bid = refl;
}

two_offers-meet : apart powers powers_ratio (some (pos 0)) half ≡ false
unfolding apart
two_offers-meet = refl

fill-IsFair_example :
    IsFair powers powers_ratio powers-IsRatio two_offers (fill powers powers_ratio two_offers)
fill-IsFair_example =
    fill-IsFair powers powers_ratio powers-IsRatio two_offers (some (pos 0)) half
      two_offers-IsIndexed two_offers-meet

-- Without offers there is no trade.
nothing_executed :
    execute memory powers powers_ratio 1 (codes "USD") (codes "EUR") no_rows ≡ (ok false, no_rows)
unfolding execute find_best_offer at_key
nothing_executed = refl

execute-refused_example : Untouched memory memory-IsStore no_rows no_rows
execute-refused_example =
    execute-refused memory memory-IsStore powers powers_ratio 1 (codes "USD") (codes "EUR") no_rows
      no_rows nothing_executed
