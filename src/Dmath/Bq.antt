-- ===== src/Dmath/Bq.antt =====
-- The text of a rational number (dmath/bq.cc), over the calls of GMP.
pub mod Decimal
pub mod Text
mod Forms
pub mod RoundTrip
mod Tests
use d_barter.Base.{
  ℕ, zero, suc, ◌+◌, ◌-◌, ◌*◌, ◌/◌, ◌%◌, Bool, true, false, Option, none, some, [], ◌∷◌, ◌++◌, ◌==◌,
  ltb, if◌then◌else◌, length,
}
use d_barter.Base.Int.{ℤ, pos}
use d_barter.Base.Bytes.{Bytes, codes, break_at}
use d_barter.Dmath.Quantity.{Quantity, blanks}

-- One loop of `_to_decimal`: the denominator is divided by `p` as long as it can be, the numerator
-- multiplied by `m`, and the rounds are counted. What is left: denominator, numerator and count.
pub divide_out : ℕ → ℕ → ℕ → ℕ → ℕ → ℕ → ℕ × (ℕ × ℕ)
divide_out p m zero den num exp = (den, (num, exp))
divide_out p m (suc fuel) den num exp =
    let more = divide_out p m fuel (den / p) (num * m) (suc exp) in
    if den % p == 0 then more else (den, (num, exp))

-- `_to_decimal`: the digits behind the point as a number, and how many they are; `none` is 1. A
-- denominator is divided fewer times than it is large.
pub to_decimal : ℕ → ℕ → Option (ℕ × ℕ)
unfolding divide_out
to_decimal num den =
    let (d, (n, e)) = divide_out 5 2 den den num 0 in
    let (d', (n', e')) = divide_out 2 5 den d n e in if d' == 1 then some (n', e') else none

-- `%0Ns`, which pads with blanks.
pub padded : ℕ → Bytes → Bytes
padded width s = blanks (width - length s) ++ s

module _ (n : Quantity) where
  open n use {Q}

  -- What the second half of `bq_to_string` prints behind the sign: `z` is the integral part, and `num`
  -- and `den` are those of the rest.
  pub unsigned_text : ℕ → ℕ → ℕ → Option (ℕ × ℕ) → Bytes
  unfolding padded
  unsigned_text z num den (some (k, zero)) = if ltb 0 z then n.get_str z else codes "0"
  unsigned_text z num den (some (k, suc e)) =
      let point = b'.' ∷ padded (suc e) (n.get_str k) in
      if ltb 0 z then n.get_str z ++ point else b'0' ∷ point
  unsigned_text z num den none =
      if ltb 0 num
      then (let quotient = n.get_str num ++ (b'/' ∷ n.get_str den) in
          if ltb 0 z then n.get_str z ++ (b'+' ∷ quotient) else quotient)
      else if ltb 0 z
      then n.get_str z
      else codes "0"

  -- The sign is left out before the text "0".
  pub sign : Bool → ℕ → ℕ → Option (ℕ × ℕ) → Bytes
  sign false z num d = []
  sign true z num (some (k, zero)) = if ltb 0 z then b'-' ∷ [] else []
  sign true z num (some (k, suc e)) = b'-' ∷ []
  sign true z num none = if ltb 0 num then b'-' ∷ [] else if ltb 0 z then b'-' ∷ [] else []

  pub absolute : Q → Q
  absolute q = if n.is_neg q then n.neg q else q

  -- `bq_to_string`
  unfoldable pub bq_to_string : Q → Bytes
  unfolding unsigned_text sign absolute to_decimal
  bq_to_string q =
      let a = absolute q in
      let z = n.trunc a in
      let f = n.sub a (n.of_int (pos z)) in
      let d = to_decimal (n.num f) (n.den f) in
      sign (n.is_neg q) z (n.num f) d ++ unsigned_text z (n.num f) (n.den f) d

  -- A text that is no number leaves the fresh 0.
  pub or_zero : Option ℤ → ℤ
  or_zero none = pos 0
  or_zero (some z) = z

  pub shift : ℕ → Q → Q
  shift zero r = r
  shift (suc i) r = shift i (n.div_ten r)

  -- The four forms of a text behind the sign: with a point, with a plus sign, with a slash, and a whole
  -- number.
  pub read_point : Bytes → Bytes → Q
  unfolding or_zero shift
  read_point s p =
      n.add (n.of_int (or_zero (n.set_str s))) (shift (length p) (n.of_int (or_zero (n.set_str p))))

  pub unless_zero : ℤ → Option Q → Option Q
  unless_zero (pos zero) r = none
  unless_zero x r = r

  pub read_mixed : Bytes → Bytes → Option Q
  unfolding unless_zero
  read_mixed s rest = elim (break_at b'/' rest) [
    | none ↦ none
    | some (p, r) ↦ elim (n.set_str r) [
      | none ↦ none
      | some x ↦ unless_zero x (elim (n.set_str s) [
        | none ↦ none
        | some z ↦ elim (n.set_str p) [
          | none ↦ none
          | some w ↦ some (n.add (n.of_int z) (n.frac w x))
        ]
      ])
    ]
  ]

  pub read_quotient : Bytes → Bytes → Option Q
  read_quotient s p = elim (n.set_str s) [
    | none ↦ none
    | some z ↦ elim (n.set_str p) [ none ↦ none | some w ↦ some (n.frac z w) ]
  ]

  pub read_unsigned : Bytes → Option Q
  unfolding read_point read_mixed read_quotient
  read_unsigned s = elim (break_at b'.' s) [
    | some (z, p) ↦ some (read_point z p)
    | none ↦ elim (break_at b'+' s) [
      | some (z, rest) ↦ read_mixed z rest
      | none ↦ elim (break_at b'/' s) [
        | some (z, p) ↦ read_quotient z p
        | none ↦ elim (n.set_str s) [ none ↦ none | some z ↦ some (n.of_int z) ]
      ]
    ]
  ]

  pub negated : Option Q → Option Q
  negated none = none
  negated (some q) = some (n.neg q)

  -- `string_to_bq`; `none` is -1, and leaves the object as it was.
  unfoldable pub string_to_bq : Bytes → Option Q
  unfolding read_unsigned negated
  string_to_bq [] = read_unsigned []
  string_to_bq (c ∷ s) = if c == b'-' then negated (read_unsigned s) else read_unsigned (c ∷ s)
