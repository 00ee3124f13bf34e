-- ===== src/Dmath/Bq/Tests.antt =====
-- The text of a number at fixed inputs.
use d_barter.Base.{◌≡◌, refl, some, none}
use d_barter.Base.Bytes.{codes, break_at, read_digits}
use d_barter.Base.Int.{pos, negsuc}
use d_barter.Dmath.Bq.{divide_out, to_decimal, bq_to_string, string_to_bq}
use d_barter.Dmath.Bq.RoundTrip.{string_to_bq-bq_to_string}
use d_barter.Dmath.Quantity.Hundredths.{hundredths}
use d_barter.Dmath.Quantity.Hundredths.Laws.{hundredths-IsQuantity}

one_eighth : to_decimal 1 8 ≡ some (125, 3)
unfolding to_decimal divide_out
one_eighth = refl

one_third : to_decimal 1 3 ≡ none
unfolding to_decimal divide_out
one_third = refl

written : bq_to_string hundredths (negsuc 204) ≡ codes "-2. 50"
unfolding bq_to_string
written = refl

mixed_read : string_to_bq hundredths (codes "2+1/4") ≡ some (pos 225)
unfolding string_to_bq break_at read_digits
mixed_read = refl

string_to_bq-bq_to_string_example :
    string_to_bq hundredths (bq_to_string hundredths (negsuc 204)) ≡ some (negsuc 204)
string_to_bq-bq_to_string_example =
    string_to_bq-bq_to_string hundredths hundredths-IsQuantity (negsuc 204)
