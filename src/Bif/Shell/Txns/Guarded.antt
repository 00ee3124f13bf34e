-- ===== src/Bif/Shell/Txns/Guarded.antt =====
-- The commands of bif/shell.cc on transactions deny a client that has not proved who it is.
use d_barter.Base.{List, [], ◌∷◌}
use d_barter.Base.Bytes.{Bytes}
use d_barter.Bom.Store.{Store}
use d_barter.Bif.Shell.{Server}
use d_barter.Bif.Shell.Guarded.{Denies, AllDeny, say-Denies, if_authenticated-Denies}
use d_barter.Bif.Shell.Txns.{cmd_txn_create, cmd_txn_commit, cmd_txn_abort, cmd_txn_read}

module _ (db : Store) (sv : Server db.State) (new_id : Bytes) {Z : Type 0} where
  pub cmd_txn_create-Denies : AllDeny sv (cmd_txn_create db sv {Z = Z} new_id)
  unfolding cmd_txn_create
  cmd_txn_create-Denies fuel (_ ∷ []) = if_authenticated-Denies sv _
  cmd_txn_create-Denies fuel argv = say-Denies sv _

  pub cmd_txn_commit-Denies : (argv : List Bytes) → Denies sv (cmd_txn_commit db sv {Z = Z} argv)
  unfolding cmd_txn_commit
  cmd_txn_commit-Denies (_ ∷ []) = if_authenticated-Denies sv _
  cmd_txn_commit-Denies argv = say-Denies sv _

  pub cmd_txn_abort-Denies : (argv : List Bytes) → Denies sv (cmd_txn_abort db sv {Z = Z} argv)
  unfolding cmd_txn_abort
  cmd_txn_abort-Denies (_ ∷ []) = if_authenticated-Denies sv _
  cmd_txn_abort-Denies argv = say-Denies sv _

  pub cmd_txn_read-Denies : AllDeny sv (cmd_txn_read db sv {Z = Z})
  unfolding cmd_txn_read
  cmd_txn_read-Denies fuel (_ ∷ tid ∷ []) = if_authenticated-Denies sv _
  cmd_txn_read-Denies fuel argv = say-Denies sv _
