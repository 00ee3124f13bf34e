-- ===== src/Bom/Value/RoundTrip.antt =====
-- The text of a value reads back (bom/value.cc).
use d_barter.Base.{◌≡◌, ◌≢◌, false, [], ◌∷◌, ◌++◌, arith, All}
use d_barter.Base.Bytes.{Bytes}
use d_barter.Bom.Value.{Value, has_space, value_to_string}
use d_barter.Dmath.Bq.{bq_to_string}
use d_barter.Dmath.Bq.RoundTrip.{bq_to_string-NoNul}
use d_barter.Dmath.Quantity.{Quantity, IsQuantity}

ne_zero-append : (s t : Bytes) → All (λ c. c ≢ 0) s → All (λ c. c ≢ 0) t → All (λ c. c ≢ 0) (s ++ t)
ne_zero-append [] t h k = k
ne_zero-append (c ∷ s) t h k = (h.0, ne_zero-append s t h.1 k)

module _ (n : Quantity) (law : IsQuantity n) where
  -- The text of such a value is a C string.
  pub value_to_string-NoNul :
      (v : Value n.Q)
      → has_space (bq_to_string n v.quant) ≡ false
      → All (λ c. c ≢ 0) v.denom
      → All (λ c. c ≢ 0) (value_to_string n v)
  unfolding value_to_string
  value_to_string-NoNul v plain h = rw plain (
      ne_zero-append v.denom (b'{' ∷ (bq_to_string n v.quant ++ (b'}' ∷ []))) h (
        (λ e. omega arith),
        ne_zero-append (bq_to_string n v.quant) (b'}' ∷ []) (bq_to_string-NoNul n law v.quant)
            ((λ e. omega arith), tt),
      ))
