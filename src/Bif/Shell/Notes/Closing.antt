-- ===== src/Bif/Shell/Notes/Closing.antt =====
-- The commands of bif/shell.cc on notes forget no transaction.
use d_barter.Base.{[], ◌∷◌, ℕ}
use d_barter.Base.Bytes.{Bytes}
use d_barter.Bom.Store.{Store}
use d_barter.Dmath.Integer.{Integer}
use d_barter.Dmath.Quantity.{Quantity}
use d_barter.Bif.Shell.{Server}
use d_barter.Bif.Shell.Laws.{IsCounted}
use d_barter.Bif.Shell.Open.Commands.{
  AllClose, say-Closes, guarded-Closes, if_authenticated-Closes, in_txn-Closes, option-Closes,
}
use d_barter.Bif.Shell.Notes.{
  cmd_note_withdraw, cmd_note_read, note_read, cmd_note_deposit, cmd_note_list, note_list,
}

module _ (db : Store) (sv : Server db.State) (law : IsCounted sv) (k : ℕ) (z : Integer)
    (n : Quantity) (rsa_challenge : z.Z → z.Z) where
  pub cmd_note_withdraw-Closes :
      (note : Bytes) → AllClose sv law k (cmd_note_withdraw db z n sv rsa_challenge note)
  unfolding cmd_note_withdraw
  cmd_note_withdraw-Closes note fuel (_ ∷ arg ∷ args) =
      if_authenticated-Closes sv law k _ (
        option-Closes sv law k _ _ _ (say-Closes sv law k _)
          (λ vl. in_txn-Closes sv law k fuel _ _))
  cmd_note_withdraw-Closes note fuel argv = say-Closes sv law k _

  pub cmd_note_read-Closes : AllClose sv law k (cmd_note_read db z n sv)
  unfolding cmd_note_read note_read
  cmd_note_read-Closes fuel (_ ∷ note ∷ []) = guarded-Closes sv law k fuel _ _
  cmd_note_read-Closes fuel (_ ∷ note ∷ signature ∷ []) = in_txn-Closes sv law k fuel _ _
  cmd_note_read-Closes fuel argv = say-Closes sv law k _

  pub cmd_note_deposit-Closes : AllClose sv law k (cmd_note_deposit db z n sv)
  unfolding cmd_note_deposit
  cmd_note_deposit-Closes fuel (_ ∷ note ∷ signature ∷ []) = if_authenticated-Closes sv law k _ (
      option-Closes sv law k (z.of_string signature) _ _ (say-Closes sv law k _)
        (λ response. in_txn-Closes sv law k fuel _ _))
  cmd_note_deposit-Closes fuel argv = say-Closes sv law k _

  pub cmd_note_list-Closes : AllClose sv law k (cmd_note_list db z n sv)
  unfolding cmd_note_list note_list
  cmd_note_list-Closes fuel (_ ∷ []) = guarded-Closes sv law k fuel _ _
  cmd_note_list-Closes fuel (_ ∷ other ∷ []) = guarded-Closes sv law k fuel _ _
  cmd_note_list-Closes fuel argv = say-Closes sv law k _
