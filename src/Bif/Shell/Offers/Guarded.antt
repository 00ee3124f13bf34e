-- ===== src/Bif/Shell/Offers/Guarded.antt =====
-- The commands of bif/shell.cc on offers deny a client that has not proved who it is.
use d_barter.Base.{[], ◌∷◌}
use d_barter.Base.Bytes.{Bytes}
use d_barter.Bom.Store.{Store}
use d_barter.Dmath.Quantity.{Quantity, Ratio}
use d_barter.Bif.Shell.{Server}
use d_barter.Bif.Shell.Guarded.{AllDeny, say-Denies, if_authenticated-Denies}
use d_barter.Bif.Shell.Offers.{
  cmd_offer_destroy, cmd_offer_create, cmd_offer_read, cmd_offer_list_by_denom, cmd_offer_list,
  offer_list,
}

module _ (db : Store) (sv : Server db.State) (n : Quantity) (t : Ratio n) (new_id : Bytes)
    {Z : Type 0} where
  pub cmd_offer_destroy-Denies : AllDeny sv (cmd_offer_destroy db n sv {Z = Z})
  unfolding cmd_offer_destroy
  cmd_offer_destroy-Denies fuel (_ ∷ offer ∷ []) = if_authenticated-Denies sv _
  cmd_offer_destroy-Denies fuel argv = say-Denies sv _

  pub cmd_offer_create-Denies : AllDeny sv (cmd_offer_create db n sv {Z = Z} t new_id)
  unfolding cmd_offer_create
  cmd_offer_create-Denies fuel (_ ∷ ask ∷ bid ∷ []) = if_authenticated-Denies sv _
  cmd_offer_create-Denies fuel argv = say-Denies sv _

  pub cmd_offer_read-Denies : AllDeny sv (cmd_offer_read db n sv {Z = Z})
  unfolding cmd_offer_read
  cmd_offer_read-Denies fuel (_ ∷ offer ∷ []) = if_authenticated-Denies sv _
  cmd_offer_read-Denies fuel argv = say-Denies sv _

  pub cmd_offer_list_by_denom-Denies : AllDeny sv (cmd_offer_list_by_denom db n sv {Z = Z})
  unfolding cmd_offer_list_by_denom
  cmd_offer_list_by_denom-Denies fuel (_ ∷ ask ∷ bid ∷ []) = if_authenticated-Denies sv _
  cmd_offer_list_by_denom-Denies fuel argv = say-Denies sv _

  pub cmd_offer_list-Denies : AllDeny sv (cmd_offer_list db n sv {Z = Z})
  unfolding cmd_offer_list offer_list
  cmd_offer_list-Denies fuel (_ ∷ []) = if_authenticated-Denies sv _
  cmd_offer_list-Denies fuel (_ ∷ other ∷ []) = if_authenticated-Denies sv _
  cmd_offer_list-Denies fuel argv = say-Denies sv _
