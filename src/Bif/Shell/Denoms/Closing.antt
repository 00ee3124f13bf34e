-- ===== src/Bif/Shell/Denoms/Closing.antt =====
-- The commands of bif/shell.cc on denominations forget no transaction.
use d_barter.Base.{[], ◌∷◌, ℕ}
use d_barter.Bom.Store.{Store}
use d_barter.Bif.Shell.{Server}
use d_barter.Bif.Shell.Laws.{IsCounted}
use d_barter.Bif.Shell.Open.Commands.{
  AllClose, say-Closes, guarded-Closes, if_authenticated-Closes, in_txn-Closes, option-Closes,
}
use d_barter.Bif.Shell.Denoms.{
  cmd_denom_create, cmd_denom_set, cmd_denom_destroy, cmd_denom_read, cmd_denom_list_all,
  cmd_denom_search, cmd_denom_list, denom_list,
}

module _ (db : Store) (sv : Server db.State) (law : IsCounted sv) (k : ℕ) {Z : Type 0} where
  pub cmd_denom_create-Closes : AllClose sv law k (cmd_denom_create db sv {Z = Z})
  unfolding cmd_denom_create
  cmd_denom_create-Closes fuel (_ ∷ id ∷ []) = guarded-Closes sv law k fuel _ _
  cmd_denom_create-Closes fuel argv = say-Closes sv law k _

  pub cmd_denom_set-Closes : AllClose sv law k (cmd_denom_set db sv {Z = Z})
  unfolding cmd_denom_set
  cmd_denom_set-Closes fuel (_ ∷ id ∷ name ∷ value ∷ []) = if_authenticated-Closes sv law k _ (
      option-Closes sv law k _ _ _ (say-Closes sv law k _)
        (λ attr. in_txn-Closes sv law k fuel _ _))
  cmd_denom_set-Closes fuel argv = say-Closes sv law k _

  pub cmd_denom_destroy-Closes : AllClose sv law k (cmd_denom_destroy db sv {Z = Z})
  unfolding cmd_denom_destroy
  cmd_denom_destroy-Closes fuel (_ ∷ id ∷ []) = in_txn-Closes sv law k fuel _ _
  cmd_denom_destroy-Closes fuel argv = say-Closes sv law k _

  pub cmd_denom_read-Closes : AllClose sv law k (cmd_denom_read db sv {Z = Z})
  unfolding cmd_denom_read
  cmd_denom_read-Closes fuel (_ ∷ id ∷ []) = guarded-Closes sv law k fuel _ _
  cmd_denom_read-Closes fuel argv = say-Closes sv law k _

  pub cmd_denom_list_all-Closes : AllClose sv law k (cmd_denom_list_all db sv {Z = Z})
  unfolding cmd_denom_list_all
  cmd_denom_list_all-Closes fuel (_ ∷ []) = guarded-Closes sv law k fuel _ _
  cmd_denom_list_all-Closes fuel argv = say-Closes sv law k _

  pub cmd_denom_search-Closes : AllClose sv law k (cmd_denom_search db sv {Z = Z})
  unfolding cmd_denom_search
  cmd_denom_search-Closes fuel (_ ∷ pattern ∷ []) = guarded-Closes sv law k fuel _ _
  cmd_denom_search-Closes fuel argv = say-Closes sv law k _

  pub cmd_denom_list-Closes : AllClose sv law k (cmd_denom_list db sv {Z = Z})
  unfolding cmd_denom_list denom_list
  cmd_denom_list-Closes fuel (_ ∷ []) = guarded-Closes sv law k fuel _ _
  cmd_denom_list-Closes fuel (_ ∷ other ∷ []) = guarded-Closes sv law k fuel _ _
  cmd_denom_list-Closes fuel argv = say-Closes sv law k _
