-- ===== src/Bif/Shell/Denoms/Guarded.antt =====
-- The commands of bif/shell.cc on denominations but `denom_destroy` deny a client that has not proved who it is.
use d_barter.Base.{[], ◌∷◌}
use d_barter.Bom.Store.{Store}
use d_barter.Bif.Shell.{Server}
use d_barter.Bif.Shell.Guarded.{AllDeny, say-Denies, if_authenticated-Denies}
use d_barter.Bif.Shell.Denoms.{
  cmd_denom_create, cmd_denom_set, cmd_denom_read, cmd_denom_list_all, cmd_denom_search,
  cmd_denom_list, denom_list,
}

module _ (db : Store) (sv : Server db.State) {Z : Type 0} where
  pub cmd_denom_create-Denies : AllDeny sv (cmd_denom_create db sv {Z = Z})
  unfolding cmd_denom_create
  cmd_denom_create-Denies fuel (_ ∷ id ∷ []) = if_authenticated-Denies sv _
  cmd_denom_create-Denies fuel argv = say-Denies sv _

  pub cmd_denom_set-Denies : AllDeny sv (cmd_denom_set db sv {Z = Z})
  unfolding cmd_denom_set
  cmd_denom_set-Denies fuel (_ ∷ id ∷ name ∷ value ∷ []) = if_authenticated-Denies sv _
  cmd_denom_set-Denies fuel argv = say-Denies sv _

  pub cmd_denom_read-Denies : AllDeny sv (cmd_denom_read db sv {Z = Z})
  unfolding cmd_denom_read
  cmd_denom_read-Denies fuel (_ ∷ id ∷ []) = if_authenticated-Denies sv _
  cmd_denom_read-Denies fuel argv = say-Denies sv _

  pub cmd_denom_list_all-Denies : AllDeny sv (cmd_denom_list_all db sv {Z = Z})
  unfolding cmd_denom_list_all
  cmd_denom_list_all-Denies fuel (_ ∷ []) = if_authenticated-Denies sv _
  cmd_denom_list_all-Denies fuel argv = say-Denies sv _

  pub cmd_denom_search-Denies : AllDeny sv (cmd_denom_search db sv {Z = Z})
  unfolding cmd_denom_search
  cmd_denom_search-Denies fuel (_ ∷ pattern ∷ []) = if_authenticated-Denies sv _
  cmd_denom_search-Denies fuel argv = say-Denies sv _

  pub cmd_denom_list-Denies : AllDeny sv (cmd_denom_list db sv {Z = Z})
  unfolding cmd_denom_list denom_list
  cmd_denom_list-Denies fuel (_ ∷ []) = if_authenticated-Denies sv _
  cmd_denom_list-Denies fuel (_ ∷ other ∷ []) = if_authenticated-Denies sv _
  cmd_denom_list-Denies fuel argv = say-Denies sv _
