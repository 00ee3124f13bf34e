-- ===== src/Bif/Shell/Money.antt =====
-- The commands `credit` and `debit` of bif/shell.cc, and the list of values that a client names. The
-- list of a command's arguments begins with its name.
mod Tests
pub mod Distinct
pub mod Closing
pub mod Guarded
pub mod Credits
use d_barter.Base.{ℕ, Option, none, some, List, [], ◌∷◌, ◌||◌, if◌then◌else◌, map}
use d_barter.Base.Bytes.{Bytes, str_eq}
use d_barter.Bom.Store.{Store}
use d_barter.Bom.Value.{Value, string_to_value, value_to_string}
use d_barter.Bom.Acct
use d_barter.Bom.Denom
use d_barter.Dmath.Quantity.{Quantity}
use d_barter.Bif.Shell.{
  reply, listing, Body, pure, ◌>>=◌, ◌>>◌, check, caller, Server, code_usage, code_invalid,
}
use d_barter.Bif.Shell.Transact.{Command, say, if_authenticated, in_txn}
use d_barter.Bif.Shell.Subject.{must_exist, must_be_super}

module _ (n : Quantity) where
  -- The loop that adds a value to the one of the same denomination; `none`: there is none.
  pub add_to : Value n.Q → List (Value n.Q) → Option (List (Value n.Q))
  add_to v [] = none
  add_to v (w ∷ vl) =
      if str_eq w.denom v.denom
      then some (record w { quant = n.add w.quant v.quant } ∷ vl)
      else elim (add_to v vl) [ none ↦ none | some vl' ↦ some (w ∷ vl') ]

  pub insert_value : Value n.Q → List (Value n.Q) → List (Value n.Q)
  insert_value v vl = elim (add_to v vl) [ none ↦ v ∷ vl | some vl' ↦ vl' ]

  -- The loop over the arguments; `none` is "invalid input".
  pub read_values : List Bytes → List (Value n.Q) → Option (List (Value n.Q))
  read_values [] vl = some vl
  read_values (arg ∷ args) vl = elim (string_to_value n arg) [
    | none ↦ none
    | some v ↦
        if n.is_zero v.quant || n.is_neg v.quant then none else read_values args (insert_value v vl)
  ]

  module _ (db : Store) where
    open db use {State}

    pub denoms_exist : List (Value n.Q) → Body State (Unit {0})
    denoms_exist [] = pure tt
    denoms_exist (v ∷ vl) = do
      must_exist (Denom.exists db v.denom) "denom not found"
      denoms_exist vl

    pub credit_all : Bytes → List (Value n.Q) → Body State (Unit {0})
    credit_all id [] = pure tt
    credit_all id (v ∷ vl) = do _ ← check (Acct.credit db n id v); credit_all id vl

    pub debit_all : Bytes → List (Value n.Q) → Body State (Unit {0})
    debit_all id [] = pure tt
    debit_all id (v ∷ vl) = do check (Acct.debit_forced db n id v); debit_all id vl

    -- What both commands ask before they move anything.
    pub admit : Bytes → List (Value n.Q) → Option Bytes → Body State (Unit {0})
    admit id vl acct = do
      must_exist (Acct.exists db id) "no such acct"
      me ← caller acct
      must_be_super db me "permission denied"
      denoms_exist vl

    pub credit_body : Bytes → List (Value n.Q) → Option Bytes → Body State (List Bytes)
    credit_body id vl acct = do
      admit id vl acct
      credit_all id vl
      pure (map (value_to_string n) vl)

    pub debit_body : Bytes → List (Value n.Q) → Option Bytes → Body State (List Bytes)
    debit_body id vl acct = do admit id vl acct; debit_all id vl; pure (map (value_to_string n) vl)

    module _ (sv : Server State) {Z : Type 0} where
      pub cmd_credit : ℕ → List Bytes → Command sv Z
      cmd_credit fuel (_ ∷ id ∷ arg ∷ args) =
          if_authenticated sv (elim (read_values (arg ∷ args) []) [
            | none ↦ say sv (reply code_invalid "invalid input")
            | some vl ↦
                in_txn sv fuel (λ sh. credit_body id vl sh.acct) (listing "values credited follow")
          ])
      cmd_credit fuel argv = say sv (reply code_usage "usage: credit acct value ...")

      pub cmd_debit : ℕ → List Bytes → Command sv Z
      cmd_debit fuel (_ ∷ id ∷ arg ∷ args) =
          if_authenticated sv (elim (read_values (arg ∷ args) []) [
            | none ↦ say sv (reply code_invalid "invalid input")
            | some vl ↦
                in_txn sv fuel (λ sh. debit_body id vl sh.acct) (listing "values debited follow")
          ])
      cmd_debit fuel argv = say sv (reply code_usage "usage: debit acct value ...")
