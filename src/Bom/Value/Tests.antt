-- ===== src/Bom/Value/Tests.antt =====
-- The text of a value at a fixed input.
use d_barter.Base.{◌≡◌, refl, some}
use d_barter.Base.Bytes.{codes, break_at, read_digits}
use d_barter.Base.Int.{ℤ, pos}
use d_barter.Bom.Value.{Value, has_space, value_to_string, string_to_value}
use d_barter.Dmath.Bq.{string_to_bq, bq_to_string}
use d_barter.Dmath.Quantity.Hundredths.{hundredths}

abbrev three_dollars : Value ℤ
three_dollars = record { denom = codes "USD"; quant = pos 300 }

value_text_run : value_to_string hundredths three_dollars ≡ codes "USD{3}"
unfolding value_to_string has_space bq_to_string
value_text_run = refl

-- 3.05 is written with a blank, and so in quotes, with which it reads as 0.
abbrev three_five : Value ℤ
three_five = record { denom = codes "USD"; quant = pos 305 }

quoted_run : value_to_string hundredths three_five ≡ codes "USD{\"3. 50\"}"
unfolding value_to_string has_space bq_to_string
quoted_run = refl

quoted_lost :
    string_to_value hundredths (codes "USD{\"3. 50\"}")
    ≡ some (record { denom = codes "USD"; quant = pos 0 })
unfolding string_to_value break_at string_to_bq read_digits
quoted_lost = refl
