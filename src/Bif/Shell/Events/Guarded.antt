-- ===== src/Bif/Shell/Events/Guarded.antt =====
-- The commands of bif/shell.cc on events deny a client that has not proved who it is.
use d_barter.Base.{[], ◌∷◌}
use d_barter.Bom.Store.{Store}
use d_barter.Bif.Shell.{Server}
use d_barter.Bif.Shell.Guarded.{AllDeny, say-Denies, if_authenticated-Denies}
use d_barter.Bif.Shell.Events.{
  cmd_event_send, cmd_event_list, event_list, cmd_event_last, cmd_event_read,
}

module _ (db : Store) (sv : Server db.State) {Z : Type 0} where
  pub cmd_event_send-Denies : AllDeny sv (cmd_event_send db sv {Z = Z})
  unfolding cmd_event_send
  cmd_event_send-Denies fuel (_ ∷ to ∷ message ∷ []) = if_authenticated-Denies sv _
  cmd_event_send-Denies fuel argv = say-Denies sv _

  pub cmd_event_list-Denies : AllDeny sv (cmd_event_list db sv {Z = Z})
  unfolding cmd_event_list event_list
  cmd_event_list-Denies fuel (_ ∷ []) = if_authenticated-Denies sv _
  cmd_event_list-Denies fuel (_ ∷ lower ∷ []) = if_authenticated-Denies sv _
  cmd_event_list-Denies fuel (_ ∷ lower ∷ upper ∷ []) = if_authenticated-Denies sv _
  cmd_event_list-Denies fuel argv = say-Denies sv _

  pub cmd_event_last-Denies : AllDeny sv (cmd_event_last db sv {Z = Z})
  unfolding cmd_event_last
  cmd_event_last-Denies fuel (_ ∷ []) = if_authenticated-Denies sv _
  cmd_event_last-Denies fuel argv = say-Denies sv _

  pub cmd_event_read-Denies : AllDeny sv (cmd_event_read db sv {Z = Z})
  unfolding cmd_event_read
  cmd_event_read-Denies fuel (_ ∷ number ∷ []) = if_authenticated-Denies sv _
  cmd_event_read-Denies fuel argv = say-Denies sv _
