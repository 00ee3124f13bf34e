-- ===== src/Bif/Shell/Accts/Closing.antt =====
-- The commands of bif/shell.cc on accounts forget no transaction.
use d_barter.Base.{[], ◌∷◌, ℕ}
use d_barter.Bom.Store.{Store}
use d_barter.Dmath.Integer.{Integer}
use d_barter.Dmath.Quantity.{Quantity}
use d_barter.Bif.Shell.{Server}
use d_barter.Bif.Shell.Laws.{IsCounted}
use d_barter.Bif.Shell.Open.Commands.{
  AllClose, say-Closes, guarded-Closes, if_authenticated-Closes, in_txn-Closes, option-Closes,
  if-Closes,
}
use d_barter.Bif.Shell.Accts.{
  cmd_acct_create, cmd_acct_set, cmd_acct_destroy, cmd_acct_read, cmd_balance, balance,
}

module _ (db : Store) (sv : Server db.State) (law : IsCounted sv) (k : ℕ) (z : Integer)
    (n : Quantity) where
  pub cmd_acct_create-Closes : AllClose sv law k (cmd_acct_create db sv z n)
  unfolding cmd_acct_create
  cmd_acct_create-Closes fuel (_ ∷ id ∷ spublic ∷ smodulus ∷ []) =
      if_authenticated-Closes sv law k _ (
        option-Closes sv law k (z.of_string spublic) _ _ (say-Closes sv law k _) (λ kpublic.
          if-Closes sv law k _ _ _ (say-Closes sv law k _) (
            option-Closes sv law k (z.of_string smodulus) _ _ (say-Closes sv law k _) (λ kmodulus.
              if-Closes sv law k _ _ _ (say-Closes sv law k _) (in_txn-Closes sv law k fuel _ _)))))
  cmd_acct_create-Closes fuel argv = say-Closes sv law k _

  pub cmd_acct_set-Closes : AllClose sv law k (cmd_acct_set db sv z n)
  unfolding cmd_acct_set
  cmd_acct_set-Closes fuel (_ ∷ id ∷ name ∷ value ∷ []) =
      option-Closes sv law k _ _ _ (say-Closes sv law k _) (λ attr. in_txn-Closes sv law k fuel _ _)
  cmd_acct_set-Closes fuel argv = say-Closes sv law k _

  pub cmd_acct_destroy-Closes : AllClose sv law k (cmd_acct_destroy db sv z n)
  unfolding cmd_acct_destroy
  cmd_acct_destroy-Closes fuel (_ ∷ id ∷ []) = in_txn-Closes sv law k fuel _ _
  cmd_acct_destroy-Closes fuel argv = say-Closes sv law k _

  pub cmd_acct_read-Closes : AllClose sv law k (cmd_acct_read db sv z n)
  unfolding cmd_acct_read
  cmd_acct_read-Closes fuel (_ ∷ id ∷ []) = in_txn-Closes sv law k fuel _ _
  cmd_acct_read-Closes fuel argv = say-Closes sv law k _

  pub cmd_balance-Closes : AllClose sv law k (cmd_balance db sv z n)
  unfolding cmd_balance balance
  cmd_balance-Closes fuel (_ ∷ []) = guarded-Closes sv law k fuel _ _
  cmd_balance-Closes fuel (_ ∷ other ∷ []) = guarded-Closes sv law k fuel _ _
  cmd_balance-Closes fuel argv = say-Closes sv law k _
