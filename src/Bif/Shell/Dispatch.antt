-- ===== src/Bif/Shell/Dispatch.antt =====
-- The table of commands of bif/shell.cc, and what `process` does with a line of a client that is in no
-- session with another server.
pub mod Closing
mod Tests
pub mod Guarded
use d_barter.Base.{
  ℕ, ◌+◌, Bool, true, false, ◌&&◌, leb, Option, none, some, List, [], ◌∷◌, if◌then◌else◌, map,
}
use d_barter.Base.Bytes.{Bytes, codes, str_eq}
use d_barter.Bom.Store.{Store}
use d_barter.Dmath.Integer.{Integer}
use d_barter.Dmath.Quantity.{Quantity, Ratio}
use d_barter.Bif.Codec.{decode_string, Parse, done, fail, stuck}
use d_barter.Bif.Shell.{reply, listing, Shell, Server, Answer, spins, code_usage, code_invalid}
use d_barter.Bif.Shell.Transact.{Command, say}
use d_barter.Bif.Shell.Login.{cmd_login, cmd_respond}
use d_barter.Bif.Shell.Txns.{cmd_txn_create, cmd_txn_commit, cmd_txn_abort, cmd_txn_read}
use d_barter.Bif.Shell.Events.{cmd_event_read, cmd_event_list, cmd_event_last, cmd_event_send}
use d_barter.Bif.Shell.Accts.{
  cmd_acct_create, cmd_acct_read, cmd_acct_set, cmd_acct_destroy, cmd_balance,
}
use d_barter.Bif.Shell.Denoms.{
  cmd_denom_create, cmd_denom_read, cmd_denom_set, cmd_denom_destroy, cmd_denom_list_all,
  cmd_denom_list, cmd_denom_search,
}
use d_barter.Bif.Shell.Notes.{cmd_note_read, cmd_note_list, cmd_note_withdraw, cmd_note_deposit}
use d_barter.Bif.Shell.Offers.{
  cmd_offer_read, cmd_offer_list, cmd_offer_list_by_denom, cmd_offer_create, cmd_offer_destroy,
}
use d_barter.Bif.Shell.Money.{cmd_credit, cmd_debit}

pub data Name : Type 0 where
  help exit shutdown login respond connect reconnect disconnect txn_create txn_commit txn_abort
        txn_read event_read event_list event_last event_send acct_create acct_read acct_set
        acct_destroy denom_create denom_read denom_set denom_destroy denom_list_all denom_list
        denom_search note_read note_list note_withdraw note_deposit offer_read offer_list
        offer_list_by_denom offer_create offer_destroy balance credit debit :
      Name

-- `command_table`
pub command_table : List (Bytes × Name)
command_table =
    (codes "help", help)
    ∷ (codes "exit", exit)
    ∷ (codes "shutdown", shutdown)
    ∷ (codes "login", login)
    ∷ (codes "respond", respond)
    ∷ (codes "connect", connect)
    ∷ (codes "reconnect", reconnect)
    ∷ (codes "disconnect", disconnect)
    ∷ (codes "txn_create", txn_create)
    ∷ (codes "txn_commit", txn_commit)
    ∷ (codes "txn_abort", txn_abort)
    ∷ (codes "txn_read", txn_read)
    ∷ (codes "event_read", event_read)
    ∷ (codes "event_list", event_list)
    ∷ (codes "event_last", event_last)
    ∷ (codes "event_send", event_send)
    ∷ (codes "acct_create", acct_create)
    ∷ (codes "acct_read", acct_read)
    ∷ (codes "acct_set", acct_set)
    ∷ (codes "acct_destroy", acct_destroy)
    ∷ (codes "denom_create", denom_create)
    ∷ (codes "denom_read", denom_read)
    ∷ (codes "denom_set", denom_set)
    ∷ (codes "denom_destroy", denom_destroy)
    ∷ (codes "denom_list_all", denom_list_all)
    ∷ (codes "denom_list", denom_list)
    ∷ (codes "denom_search", denom_search)
    ∷ (codes "note_read", note_read)
    ∷ (codes "note_list", note_list)
    ∷ (codes "note_withdraw", note_withdraw)
    ∷ (codes "note_deposit", note_deposit)
    ∷ (codes "offer_read", offer_read)
    ∷ (codes "offer_list", offer_list)
    ∷ (codes "offer_list_by_denom", offer_list_by_denom)
    ∷ (codes "offer_create", offer_create)
    ∷ (codes "offer_destroy", offer_destroy)
    ∷ (codes "balance", balance)
    ∷ (codes "credit", credit)
    ∷ (codes "debit", debit)
    ∷ []

-- `strcasecmp(s, t) == 0`
lower : ℕ → ℕ
lower c = if leb 65 c && leb c 90 then c + 32 else c

same_case : Bytes → Bytes → Bool
unfolding lower
same_case s t = str_eq (map lower s) (map lower t)

pub find_command : List (Bytes × Name) → Bytes → Option Name
unfolding same_case
find_command [] command = none
find_command ((word, name) ∷ table) command =
    if same_case word command then some name else find_command table command

pub command_lookup : Bytes → Option Name
command_lookup command = find_command command_table command

module _ (db : Store) (sv : Server db.State) (z : Integer) (n : Quantity) (t : Ratio n)
    (rsa_challenge : z.Z → z.Z) (new_id : Bytes) where
  pub cmd_help : List Bytes → Command sv z.Z
  cmd_help (_ ∷ []) =
      say sv (listing "success; command list follows" (map (λ e. e.0) command_table))
  cmd_help argv = say sv (reply code_usage "usage: help")

  -- The command of a name; `none`: the commands that end the connection or the server, and those on
  -- sessions with other servers.
  pub run : Name → ℕ → List Bytes → Option (Command sv z.Z)
  run help fuel argv = some (cmd_help argv)
  run exit fuel argv = none
  run shutdown fuel argv = none
  run login fuel argv = some (cmd_login db z sv rsa_challenge fuel argv)
  run respond fuel argv = some (cmd_respond db z sv fuel argv)
  run connect fuel argv = none
  run reconnect fuel argv = none
  run disconnect fuel argv = none
  run txn_create fuel argv = some (cmd_txn_create db sv new_id fuel argv)
  run txn_commit fuel argv = some (cmd_txn_commit db sv argv)
  run txn_abort fuel argv = some (cmd_txn_abort db sv argv)
  run txn_read fuel argv = some (cmd_txn_read db sv fuel argv)
  run event_read fuel argv = some (cmd_event_read db sv fuel argv)
  run event_list fuel argv = some (cmd_event_list db sv fuel argv)
  run event_last fuel argv = some (cmd_event_last db sv fuel argv)
  run event_send fuel argv = some (cmd_event_send db sv fuel argv)
  run acct_create fuel argv = some (cmd_acct_create db sv z n fuel argv)
  run acct_read fuel argv = some (cmd_acct_read db sv z n fuel argv)
  run acct_set fuel argv = some (cmd_acct_set db sv z n fuel argv)
  run acct_destroy fuel argv = some (cmd_acct_destroy db sv z n fuel argv)
  run denom_create fuel argv = some (cmd_denom_create db sv fuel argv)
  run denom_read fuel argv = some (cmd_denom_read db sv fuel argv)
  run denom_set fuel argv = some (cmd_denom_set db sv fuel argv)
  run denom_destroy fuel argv = some (cmd_denom_destroy db sv fuel argv)
  run denom_list_all fuel argv = some (cmd_denom_list_all db sv fuel argv)
  run denom_list fuel argv = some (cmd_denom_list db sv fuel argv)
  run denom_search fuel argv = some (cmd_denom_search db sv fuel argv)
  run note_read fuel argv = some (cmd_note_read db z n sv fuel argv)
  run note_list fuel argv = some (cmd_note_list db z n sv fuel argv)
  run note_withdraw fuel argv = some (cmd_note_withdraw db z n sv rsa_challenge new_id fuel argv)
  run note_deposit fuel argv = some (cmd_note_deposit db z n sv fuel argv)
  run offer_read fuel argv = some (cmd_offer_read db n sv fuel argv)
  run offer_list fuel argv = some (cmd_offer_list db n sv fuel argv)
  run offer_list_by_denom fuel argv = some (cmd_offer_list_by_denom db n sv fuel argv)
  run offer_create fuel argv = some (cmd_offer_create db n sv t new_id fuel argv)
  run offer_destroy fuel argv = some (cmd_offer_destroy db n sv fuel argv)
  run balance fuel argv = some (cmd_balance db sv z n fuel argv)
  run credit fuel argv = some (cmd_credit n db sv fuel argv)
  run debit fuel argv = some (cmd_debit n db sv fuel argv)

  unknown : Command sv z.Z
  unknown = say sv (reply code_invalid "unknown command")

  pub obey : ℕ → List Bytes → Option (Command sv z.Z)
  unfolding unknown
  obey fuel [] = some unknown
  obey fuel (word ∷ args) = elim (command_lookup word) [
    | none ↦ some unknown
    | some name ↦ run name fuel (word ∷ args)
  ]

  -- A line of the client: it is split into arguments, and the first of them is looked up.
  pub serve : ℕ → Bytes → Option (Command sv z.Z)
  serve fuel line = elim (decode_string line) [
    | done argv ↦ obey fuel argv
    | fail ↦ some (say sv (reply code_invalid "parse error"))
    | stuck ↦ some (λ sh w. (spins, (sh, w)))
  ]
