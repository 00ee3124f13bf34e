-- ===== src/Bom/Value.antt =====
-- Values (bom/value.cc): an amount of a denomination, and its text `denom{amount}`.
pub mod RoundTrip
mod Tests
use d_barter.Base.{
  Option, none, some, Bool, false, none, some, ◌∷◌, [], ◌++◌, ◌||◌, ◌==◌, if◌then◌else◌,
}
use d_barter.Base.Bytes.{break_at, Bytes}
use d_barter.Bom.Text.{dbt_to_string, string_to_dbt}
use d_barter.Dmath.Quantity.{Quantity}
use d_barter.Dmath.Bq.{string_to_bq, bq_to_string}

pub record Value (Q : Type 0) : Type 0 where
  pub denom : Bytes
  pub quant : Q

-- `strchr(squant, ' ') ? 1 : 0`
unfoldable pub has_space : Bytes → Bool
has_space [] = false
has_space (c ∷ s) = c == 32 || has_space s

module _ (n : Quantity) where
  open n use {Q}

  -- `value_to_string`
  unfoldable pub value_to_string : Value Q → Bytes
  unfolding has_space
  value_to_string v =
      let squant = bq_to_string n v.quant in
      let quote = if has_space squant then b'"' ∷ [] else [] in
      v.denom ++ (b'{' ∷ (quote ++ (squant ++ (quote ++ (b'}' ∷ [])))))

  -- `string_to_value`: what stands before the first brace, and between the braces, with nothing
  -- behind; `none` is -1, and leaves the object as it was.
  unfoldable pub string_to_value : Bytes → Option (Value Q)
  string_to_value s = elim (break_at b'{' s) [
    | none ↦ none
    | some (id, p0) ↦ elim (break_at b'}' p0) [
      | none ↦ none
      | some (squant, p1) ↦ elim p1 [
        | c ∷ rest ↦ none
        | [] ↦ elim (string_to_bq n squant) [
          | none ↦ none
          | some q ↦ some (record { denom = id; quant = q })
        ]
      ]
    ]
  ]

  -- `dbt_to_bq`: a text that is no number leaves the old amount.
  unfoldable pub dbt_to_bq : Bytes → Q → Q
  dbt_to_bq d old = elim (string_to_bq n (dbt_to_string d)) [ none ↦ old | some q ↦ q ]

  -- `bq_to_dbt`
  unfoldable pub bq_to_dbt : Q → Bytes
  bq_to_dbt q = string_to_dbt (bq_to_string n q)
