-- ===== src/Bif/Shell/Events/Closing.antt =====
-- The commands of bif/shell.cc on events but `event_send` and `event_last` forget no transaction.
use d_barter.Base.{[], ◌∷◌, ℕ, ltb}
use d_barter.Base.Bytes.{strtoul}
use d_barter.Bom.Store.{Store}
use d_barter.Bif.Shell.{Server}
use d_barter.Bif.Shell.Laws.{IsCounted}
use d_barter.Bif.Shell.Open.Commands.{
  AllClose, say-Closes, guarded-Closes, if_authenticated-Closes, in_txn-Closes, if-Closes,
}
use d_barter.Bif.Shell.Events.{cmd_event_list, event_list, cmd_event_read}

module _ (db : Store) (sv : Server db.State) (law : IsCounted sv) (k : ℕ) {Z : Type 0} where
  pub cmd_event_list-Closes : AllClose sv law k (cmd_event_list db sv {Z = Z})
  unfolding cmd_event_list event_list
  cmd_event_list-Closes fuel (_ ∷ []) = guarded-Closes sv law k fuel _ _
  cmd_event_list-Closes fuel (_ ∷ lower ∷ []) =
      if_authenticated-Closes sv law k _
        (if-Closes sv law k _ _ _ (say-Closes sv law k _) (in_txn-Closes sv law k fuel _ _))
  cmd_event_list-Closes fuel (_ ∷ lower ∷ upper ∷ []) = if_authenticated-Closes sv law k _ (
      if-Closes sv law k (ltb (strtoul lower) 1) _ _ (say-Closes sv law k _) (
        if-Closes sv law k (ltb (strtoul upper) 1) _ _ (say-Closes sv law k _)
          (in_txn-Closes sv law k fuel _ _)))
  cmd_event_list-Closes fuel argv = say-Closes sv law k _

  pub cmd_event_read-Closes : AllClose sv law k (cmd_event_read db sv {Z = Z})
  unfolding cmd_event_read
  cmd_event_read-Closes fuel (_ ∷ number ∷ []) =
      if_authenticated-Closes sv law k _
        (if-Closes sv law k _ _ _ (say-Closes sv law k _) (in_txn-Closes sv law k fuel _ _))
  cmd_event_read-Closes fuel argv = say-Closes sv law k _
