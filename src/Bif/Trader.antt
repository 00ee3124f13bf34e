-- ===== src/Bif/Trader.antt =====
-- The trader (bif/trader.cc): it takes the best offer in each direction between two denominations and,
-- if they meet, fills the smaller one and a share of the other.
pub mod Fair
pub mod Refusal
mod Tests
use d_barter.Base.{ℕ, Bool, true, false, Option, none, some, List, [], if◌then◌else◌}
use d_barter.Base.Bytes.{Bytes, str_eq}
use d_barter.Bom.Store.{Error, minus_one, errno, Result, ok, err, M, pure, fail, ◌>>=◌, ◌>>◌, Store}
use d_barter.Bom.Value.{Value}
use d_barter.Bom.Acct
use d_barter.Bom.Offer
use d_barter.Bom.Offer.{Best}
use d_barter.Dmath.Quantity.{Quantity, Ratio}

-- The two offers of a trade, each with what it asks and what it bids.
pub record Pair (Q : Type 0) : Type 0 where
  pub ask0 : Q
  pub bid0 : Q
  pub ask1 : Q
  pub bid1 : Q

-- What a trade moves: `credit[i].quant` goes to the issuer of offer i, and `debit[i].quant` is taken
-- off its bid.
pub record Fill (Q : Type 0) : Type 0 where
  pub credit0 : Q
  pub debit0 : Q
  pub credit1 : Q
  pub debit1 : Q

module _ (n : Quantity) (t : Ratio n) where
  -- `ratio[0] * ratio[1] > 1`
  pub apart : n.Q → n.Q → Bool
  apart ratio0 ratio1 = t.lt t.one (t.mul ratio0 ratio1)

  -- The shares theta[0] and theta[1] that are filled.
  pub theta : Pair n.Q → n.Q × n.Q
  theta p =
      if t.lt p.bid0 p.ask1
      then (t.one, t.div p.bid0 p.ask1)
      else if t.lt p.bid1 p.ask0
      then (t.div p.bid1 p.ask0, t.one)
      else (t.one, t.one)

  pub fill : Pair n.Q → Fill n.Q
  fill p =
      let (theta0, theta1) = theta p in
      record {
        credit0 = t.mul p.ask0 theta0;
        debit0 = t.mul p.bid0 theta0;
        credit1 = t.mul p.ask1 theta1;
        debit1 = t.mul p.bid1 theta1;
      }

module _ (db : Store) (n : Quantity) (t : Ratio n) where
  open db use {State}

  -- `if (!success) return -1`
  pub insist : M State Bool → M State (Unit {0})
  insist m = do success ← m; if success then pure tt else fail minus_one

  -- One side: the issuer is credited, and the offer asks for that much less.
  pub pay : Bytes → Bytes → Value n.Q → n.Q → M State (Unit {0})
  pay offer issuer ask credit = do
    insist (Acct.credit db n issuer (record ask { quant = credit }))
    Offer.set_ask_value db n offer (record ask { quant = n.sub ask.quant credit })

  -- One side: the offer bids that much less, and is removed at 0.
  pub take : ℕ → Bytes → Value n.Q → n.Q → M State (Unit {0})
  take fuel offer bid debit =
      let left = n.sub bid.quant debit in
      if n.is_zero left
      then Offer.destroy db n fuel offer []
      else Offer.set_bid_value db n offer (record bid { quant = left })

  -- The trade of two offers whose ratios meet. An offer object has no issuer loaded.
  pub trade : ℕ → Bytes → Bytes → M State (Unit {0})
  trade fuel offer0 offer1 = do
    bid0 ← Offer.get_bid_value db n offer0 (Offer.no_value db n)
    ask0 ← Offer.get_ask_value db n offer0 (Offer.no_value db n)
    issuer0 ← Offer.get_issuer db offer0
    bid1 ← Offer.get_bid_value db n offer1 (Offer.no_value db n)
    ask1 ← Offer.get_ask_value db n offer1 (Offer.no_value db n)
    issuer1 ← Offer.get_issuer db offer1
    let f =
        fill n t
          (record { ask0 = ask0.quant; bid0 = bid0.quant; ask1 = ask1.quant; bid1 = bid1.quant })
    pay offer0 issuer0 ask0 f.credit0
    pay offer1 issuer1 ask1 f.credit1
    take fuel offer0 bid0 f.debit0
    take fuel offer1 bid1 f.debit1

  -- `execute` with the best offer of the first direction.
  pub execute_from : ℕ → Bytes → Bytes → Best n.Q → M State Bool
  execute_from fuel denom0 denom1 best0 = Offer.find_best_offer db n denom1 denom0 n.zero >>= cross
    where
      cross : Option (Best n.Q) → M State Bool
      cross none = pure false
      cross (some best1) =
          if apart n t best0.ratio best1.ratio
          then pure false
          else (trade fuel best0.offer best1.offer >> pure true)

  -- `execute`: the Boolean is `*_success`.
  pub execute : ℕ → Bytes → Bytes → M State Bool
  execute fuel denom0 denom1 = Offer.find_best_offer db n denom0 denom1 n.zero >>= first
    where
      first : Option (Best n.Q) → M State Bool
      first none = pure false
      first (some best0) = execute_from fuel denom0 denom1 best0
