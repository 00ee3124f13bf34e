-- ===== src/Bif/Shell/Notes/Guarded.antt =====
-- The commands of bif/shell.cc on notes but `note_read` deny a client that has not proved who it is.
use d_barter.Base.{[], ◌∷◌}
use d_barter.Base.Bytes.{Bytes}
use d_barter.Bom.Store.{Store}
use d_barter.Dmath.Integer.{Integer}
use d_barter.Dmath.Quantity.{Quantity}
use d_barter.Bif.Shell.{Server}
use d_barter.Bif.Shell.Guarded.{AllDeny, say-Denies, if_authenticated-Denies}
use d_barter.Bif.Shell.Notes.{cmd_note_withdraw, cmd_note_deposit, cmd_note_list, note_list}

module _ (db : Store) (sv : Server db.State) (z : Integer) (n : Quantity)
    (rsa_challenge : z.Z → z.Z) (new_id : Bytes) where
  pub cmd_note_withdraw-Denies : AllDeny sv (cmd_note_withdraw db z n sv rsa_challenge new_id)
  unfolding cmd_note_withdraw
  cmd_note_withdraw-Denies fuel (_ ∷ arg ∷ args) = if_authenticated-Denies sv _
  cmd_note_withdraw-Denies fuel argv = say-Denies sv _

  pub cmd_note_deposit-Denies : AllDeny sv (cmd_note_deposit db z n sv)
  unfolding cmd_note_deposit
  cmd_note_deposit-Denies fuel (_ ∷ note ∷ signature ∷ []) = if_authenticated-Denies sv _
  cmd_note_deposit-Denies fuel argv = say-Denies sv _

  pub cmd_note_list-Denies : AllDeny sv (cmd_note_list db z n sv)
  unfolding cmd_note_list note_list
  cmd_note_list-Denies fuel (_ ∷ []) = if_authenticated-Denies sv _
  cmd_note_list-Denies fuel (_ ∷ other ∷ []) = if_authenticated-Denies sv _
  cmd_note_list-Denies fuel argv = say-Denies sv _
