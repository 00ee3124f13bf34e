-- ===== src/Bif/Shell/Money/Guarded.antt =====
-- The commands of bif/shell.cc on money deny a client that has not proved who it is.
use d_barter.Base.{◌∷◌}
use d_barter.Bom.Store.{Store}
use d_barter.Dmath.Quantity.{Quantity}
use d_barter.Bif.Shell.{Server}
use d_barter.Bif.Shell.Guarded.{AllDeny, say-Denies, if_authenticated-Denies}
use d_barter.Bif.Shell.Money.{cmd_credit, cmd_debit}

module _ (n : Quantity) (db : Store) (sv : Server db.State) {Z : Type 0} where
  pub cmd_credit-Denies : AllDeny sv (cmd_credit n db sv {Z = Z})
  unfolding cmd_credit
  cmd_credit-Denies fuel (_ ∷ id ∷ arg ∷ args) = if_authenticated-Denies sv _
  cmd_credit-Denies fuel argv = say-Denies sv _

  pub cmd_debit-Denies : AllDeny sv (cmd_debit n db sv {Z = Z})
  unfolding cmd_debit
  cmd_debit-Denies fuel (_ ∷ id ∷ arg ∷ args) = if_authenticated-Denies sv _
  cmd_debit-Denies fuel argv = say-Denies sv _
