-- ===== src/Bom/Portfolio.antt =====
-- The values that stand in one table under an owner, an account or a note: the loops of bom/acct.cc
-- and bom/note.cc over a cursor, which the two files write out for tables of their own.
pub mod Loops
use d_barter.Base.{ℕ, zero, suc, Bool, Option, none, some, List, [], ◌∷◌, if◌then◌else◌}
use d_barter.Base.Bytes.{Bytes, str_eq}
use d_barter.Bom.Store.{
  Table, minus_one, out_of_fuel, Result, ok, err, M, pure, fail, ◌>>=◌, ◌>>◌, Store, set_range,
  next_record, on_found, on_error,
}
use d_barter.Bom.Text.{string_to_dbt, dbt_to_string, behind_nul}
use d_barter.Bom.Value.{Value}
use d_barter.Dmath.Bq.{string_to_bq}
use d_barter.Dmath.Quantity.{Quantity}

-- `strict`: an amount that is no number is the error -1, as bom/acct.cc has it. In bom/note.cc the
-- object, which is reused, keeps its amount.
module _ (db : Store) (strict : Bool) (t : Table) (n : Quantity) where
  open db use {State, Cursor, cursor, c_get, c_del, c_close}

  pub amount_of : Bytes → n.Q → Option n.Q → Result (Option (Value n.Q))
  amount_of denom old (some q) = ok (some (record { denom = denom; quant = q }))
  amount_of denom old none =
      if strict then err minus_one else ok (some (record { denom = denom; quant = old }))

  -- A record at the cursor: the value, if it is one of the owner's.
  pub value_at : Bytes → Value n.Q → Bytes × Bytes → Result (Option (Value n.Q))
  unfolding amount_of
  value_at id old (k, v) =
      if str_eq (dbt_to_string k) id
      then amount_of (dbt_to_string (behind_nul k)) old.quant (string_to_bq n (dbt_to_string v))
      else ok none

  -- `get_value_first` and `get_value_next`: `none` is `*exists == 0`.
  pub get_value_first : Cursor → Bytes → Value n.Q → M State (Option (Value n.Q))
  get_value_first c id old =
      on_found (c_get c set_range (string_to_dbt id) []) (λ kv s. (value_at id old kv, s))
        (pure none)

  pub get_value_next : Cursor → Bytes → Value n.Q → M State (Option (Value n.Q))
  get_value_next c id old =
      on_found (c_get c next_record [] []) (λ kv s. (value_at id old kv, s)) (pure none)

  -- The loop of `get_portfolio`, with the list that it has built.
  pub read_values :
      ℕ → Cursor → Bytes → Option (Value n.Q) → List (Value n.Q) → M State (List (Value n.Q))
  read_values fuel c id none vl = do c_close c; pure vl
  read_values zero c id (some val) vl = fail out_of_fuel
  read_values (suc fuel) c id (some val) vl = do
    next ← on_error (get_value_next c id val) (c_close c)
    read_values fuel c id next (val ∷ vl)

  -- `get_portfolio`, on a fresh `bom::value`.
  pub get_portfolio : ℕ → Bytes → M State (List (Value n.Q))
  get_portfolio fuel id = do
    c ← cursor t
    first ← on_error (get_value_first c id (record { denom = []; quant = n.zero })) (c_close c)
    read_values fuel c id first []

  -- The loop of `del_portfolio`.
  pub del_values : ℕ → Cursor → Bytes → Option (Value n.Q) → M State (Unit {0})
  del_values fuel c id none = c_close c
  del_values zero c id (some val) = fail out_of_fuel
  del_values (suc fuel) c id (some val) = do
    on_error (c_del c) (c_close c)
    next ← on_error (get_value_next c id val) (c_close c)
    del_values fuel c id next

  pub del_portfolio : ℕ → Bytes → M State (Unit {0})
  del_portfolio fuel id = do
    c ← cursor t
    first ← on_error (get_value_first c id (record { denom = []; quant = n.zero })) (c_close c)
    del_values fuel c id first
