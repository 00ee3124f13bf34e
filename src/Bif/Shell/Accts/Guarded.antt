-- ===== src/Bif/Shell/Accts/Guarded.antt =====
-- The commands of bif/shell.cc on accounts but `acct_set`, `acct_destroy` and `acct_read` deny a client that has not proved who it is.
use d_barter.Base.{[], ◌∷◌}
use d_barter.Bom.Store.{Store}
use d_barter.Dmath.Integer.{Integer}
use d_barter.Dmath.Quantity.{Quantity}
use d_barter.Bif.Shell.{Server}
use d_barter.Bif.Shell.Guarded.{AllDeny, say-Denies, if_authenticated-Denies}
use d_barter.Bif.Shell.Accts.{cmd_acct_create, cmd_balance, balance}

module _ (db : Store) (sv : Server db.State) (z : Integer) (n : Quantity) where
  pub cmd_acct_create-Denies : AllDeny sv (cmd_acct_create db sv z n)
  unfolding cmd_acct_create
  cmd_acct_create-Denies fuel (_ ∷ id ∷ spublic ∷ smodulus ∷ []) = if_authenticated-Denies sv _
  cmd_acct_create-Denies fuel argv = say-Denies sv _

  pub cmd_balance-Denies : AllDeny sv (cmd_balance db sv z n)
  unfolding cmd_balance balance
  cmd_balance-Denies fuel (_ ∷ []) = if_authenticated-Denies sv _
  cmd_balance-Denies fuel (_ ∷ other ∷ []) = if_authenticated-Denies sv _
  cmd_balance-Denies fuel argv = say-Denies sv _
