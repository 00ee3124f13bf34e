-- ===== src/Bif/Shell/Money/Closing.antt =====
-- The commands of bif/shell.cc on money forget no transaction.
use d_barter.Base.{◌∷◌, ℕ}
use d_barter.Bom.Store.{Store}
use d_barter.Dmath.Quantity.{Quantity}
use d_barter.Bif.Shell.{Server}
use d_barter.Bif.Shell.Laws.{IsCounted}
use d_barter.Bif.Shell.Open.Commands.{
  AllClose, say-Closes, if_authenticated-Closes, in_txn-Closes, option-Closes,
}
use d_barter.Bif.Shell.Money.{cmd_credit, cmd_debit}

module _ (db : Store) (sv : Server db.State) (law : IsCounted sv) (k : ℕ) (n : Quantity)
    {Z : Type 0} where
  pub cmd_credit-Closes : AllClose sv law k (cmd_credit n db sv {Z = Z})
  unfolding cmd_credit
  cmd_credit-Closes fuel (_ ∷ id ∷ arg ∷ args) =
      if_authenticated-Closes sv law k _ (
        option-Closes sv law k _ _ _ (say-Closes sv law k _)
          (λ vl. in_txn-Closes sv law k fuel _ _))
  cmd_credit-Closes fuel argv = say-Closes sv law k _

  pub cmd_debit-Closes : AllClose sv law k (cmd_debit n db sv {Z = Z})
  unfolding cmd_debit
  cmd_debit-Closes fuel (_ ∷ id ∷ arg ∷ args) =
      if_authenticated-Closes sv law k _ (
        option-Closes sv law k _ _ _ (say-Closes sv law k _)
          (λ vl. in_txn-Closes sv law k fuel _ _))
  cmd_debit-Closes fuel argv = say-Closes sv law k _
