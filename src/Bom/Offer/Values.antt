-- ===== src/Bom/Offer/Values.antt =====
-- What an offer asks and bids reads back from its two tables (bom/offer.cc).
use d_barter.Base.{◌≡◌, ◌≢◌, false, All}
use d_barter.Base.Bytes.{Bytes}
use d_barter.Bom.Store.{Store}
use d_barter.Bom.Store.Laws.{IsStore}
use d_barter.Bom.Text.{NoNul}
use d_barter.Bom.Value.{Value, has_space}
use d_barter.Dmath.Bq.{bq_to_string}
use d_barter.Dmath.Quantity.{Quantity, IsQuantity}

module _ (db : Store) (law : IsStore db) (n : Quantity) (nlaw : IsQuantity n) where
  open db use {State}
  open law use {content}

  -- The name of a denomination: a C string without an opening brace.
  abbrev pub IsName : Bytes → Type 0
  IsName d = NoNul d × All (λ c. c ≢ b'{') d

  -- The amount is written without a blank.
  abbrev pub IsPlain : Value n.Q → Type 0
  IsPlain v = has_space (bq_to_string n v.quant) ≡ false
