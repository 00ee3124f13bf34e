-- ===== src/Bif/Shell/Dispatch/Guarded.antt =====
-- Which lines have an effect before a client has proved who it is (bif/shell.cc).
use d_barter.Base.{ℕ, ◌≡◌, refl, subst, Bool, true, false, Option, none, some, List, [], ◌∷◌}
use d_barter.Base.Bytes.{Bytes}
use d_barter.Bom.Store.{Store}
use d_barter.Dmath.Integer.{Integer}
use d_barter.Dmath.Quantity.{Quantity, Ratio}
use d_barter.Bif.Codec.{decode_string, Parse, done, fail, stuck}
use d_barter.Bif.Shell.{Shell, Server, Answer, reply, spins, code_invalid}
use d_barter.Bif.Shell.Transact.{Command, say}
use d_barter.Bif.Shell.Guarded.{Denies, say-Denies}
use d_barter.Bif.Shell.Accts.Guarded.{cmd_acct_create-Denies, cmd_balance-Denies}
use d_barter.Bif.Shell.Denoms.Guarded.{
  cmd_denom_create-Denies, cmd_denom_set-Denies, cmd_denom_read-Denies, cmd_denom_list_all-Denies,
  cmd_denom_search-Denies, cmd_denom_list-Denies,
}
use d_barter.Bif.Shell.Notes.Guarded.{
  cmd_note_withdraw-Denies, cmd_note_deposit-Denies, cmd_note_list-Denies,
}
use d_barter.Bif.Shell.Events.Guarded.{
  cmd_event_send-Denies, cmd_event_list-Denies, cmd_event_last-Denies, cmd_event_read-Denies,
}
use d_barter.Bif.Shell.Offers.Guarded.{
  cmd_offer_destroy-Denies, cmd_offer_create-Denies, cmd_offer_read-Denies,
  cmd_offer_list_by_denom-Denies, cmd_offer_list-Denies,
}
use d_barter.Bif.Shell.Txns.Guarded.{
  cmd_txn_create-Denies, cmd_txn_commit-Denies, cmd_txn_abort-Denies, cmd_txn_read-Denies,
}
use d_barter.Bif.Shell.Money.Guarded.{cmd_credit-Denies, cmd_debit-Denies}
use d_barter.Bif.Shell.Dispatch.{
  Name, help, exit, shutdown, login, respond, connect, reconnect, disconnect, txn_create,
  txn_commit, txn_abort, txn_read, event_read, event_list, event_last, event_send, acct_create,
  acct_read, acct_set, acct_destroy, denom_create, denom_read, denom_set, denom_destroy,
  denom_list_all, denom_list, denom_search, note_read, note_list, note_withdraw, note_deposit,
  offer_read, offer_list, offer_list_by_denom, offer_create, offer_destroy, balance, credit, debit,
  command_lookup, cmd_help, run, unknown, obey, serve,
}

-- The commands that do something before: `login` and `respond`, and those without `if (!status)`.
abbrev pub is_open : Name → Bool
is_open login = true
is_open respond = true
is_open acct_set = true
is_open acct_destroy = true
is_open acct_read = true
is_open denom_destroy = true
is_open note_read = true
is_open name = false

-- Whether a line is one of theirs.
abbrev pub is_open_word : Option Name → Bool
is_open_word none = false
is_open_word (some name) = is_open name

abbrev pub is_open_line : Parse (List Bytes) → Bool
is_open_line (done (word ∷ args)) = is_open_word (command_lookup word)
is_open_line p = false

module _ (db : Store) (sv : Server db.State) (z : Integer) (n : Quantity) (t : Ratio n)
    (rsa_challenge : z.Z → z.Z) (new_id : Bytes) where
  abbrev IfServed : Option (Command sv z.Z) → Type 0
  IfServed none = Unit
  IfServed (some c) = Denies sv c

  cmd_help-Denies : (argv : List Bytes) → Denies sv (cmd_help db sv z n t rsa_challenge new_id argv)
  unfolding cmd_help
  cmd_help-Denies (_ ∷ []) = say-Denies sv _
  cmd_help-Denies argv = say-Denies sv _

  run-Denies :
      (name : Name) (fuel : ℕ) (argv : List Bytes)
      → is_open name ≡ false
      → IfServed (run db sv z n t rsa_challenge new_id name fuel argv)
  unfolding run
  run-Denies help fuel argv h = cmd_help-Denies argv
  run-Denies exit fuel argv h = tt
  run-Denies shutdown fuel argv h = tt
  run-Denies login fuel argv h = absurd (cc h)
  run-Denies respond fuel argv h = absurd (cc h)
  run-Denies connect fuel argv h = tt
  run-Denies reconnect fuel argv h = tt
  run-Denies disconnect fuel argv h = tt
  run-Denies txn_create fuel argv h = cmd_txn_create-Denies db sv new_id fuel argv
  run-Denies txn_commit fuel argv h = cmd_txn_commit-Denies db sv new_id argv
  run-Denies txn_abort fuel argv h = cmd_txn_abort-Denies db sv new_id argv
  run-Denies txn_read fuel argv h = cmd_txn_read-Denies db sv new_id fuel argv
  run-Denies event_read fuel argv h = cmd_event_read-Denies db sv fuel argv
  run-Denies event_list fuel argv h = cmd_event_list-Denies db sv fuel argv
  run-Denies event_last fuel argv h = cmd_event_last-Denies db sv fuel argv
  run-Denies event_send fuel argv h = cmd_event_send-Denies db sv fuel argv
  run-Denies acct_create fuel argv h = cmd_acct_create-Denies db sv z n fuel argv
  run-Denies acct_read fuel argv h = absurd (cc h)
  run-Denies acct_set fuel argv h = absurd (cc h)
  run-Denies acct_destroy fuel argv h = absurd (cc h)
  run-Denies denom_create fuel argv h = cmd_denom_create-Denies db sv fuel argv
  run-Denies denom_read fuel argv h = cmd_denom_read-Denies db sv fuel argv
  run-Denies denom_set fuel argv h = cmd_denom_set-Denies db sv fuel argv
  run-Denies denom_destroy fuel argv h = absurd (cc h)
  run-Denies denom_list_all fuel argv h = cmd_denom_list_all-Denies db sv fuel argv
  run-Denies denom_list fuel argv h = cmd_denom_list-Denies db sv fuel argv
  run-Denies denom_search fuel argv h = cmd_denom_search-Denies db sv fuel argv
  run-Denies note_read fuel argv h = absurd (cc h)
  run-Denies note_list fuel argv h = cmd_note_list-Denies db sv z n rsa_challenge new_id fuel argv
  run-Denies note_withdraw fuel argv h =
      cmd_note_withdraw-Denies db sv z n rsa_challenge new_id fuel argv
  run-Denies note_deposit fuel argv h =
      cmd_note_deposit-Denies db sv z n rsa_challenge new_id fuel argv
  run-Denies offer_read fuel argv h = cmd_offer_read-Denies db sv n t new_id fuel argv
  run-Denies offer_list fuel argv h = cmd_offer_list-Denies db sv n t new_id fuel argv
  run-Denies offer_list_by_denom fuel argv h =
      cmd_offer_list_by_denom-Denies db sv n t new_id fuel argv
  run-Denies offer_create fuel argv h = cmd_offer_create-Denies db sv n t new_id fuel argv
  run-Denies offer_destroy fuel argv h = cmd_offer_destroy-Denies db sv n t new_id fuel argv
  run-Denies balance fuel argv h = cmd_balance-Denies db sv z n fuel argv
  run-Denies credit fuel argv h = cmd_credit-Denies n db sv fuel argv
  run-Denies debit fuel argv h = cmd_debit-Denies n db sv fuel argv

  obey-Denies :
      (fuel : ℕ) (argv : List Bytes)
      → is_open_line (done argv) ≡ false
      → IfServed (obey db sv z n t rsa_challenge new_id fuel argv)
  unfolding obey unknown
  obey-Denies fuel [] h = say-Denies sv _
  obey-Denies fuel (word ∷ args) h = step (command_lookup word) h
    where
      step :
          (o : Option Name)
          → is_open_word o ≡ false
          → IfServed (elim o [
            | none ↦ some (unknown db sv z n t rsa_challenge new_id)
            | some name ↦ run db sv z n t rsa_challenge new_id name fuel (word ∷ args)
          ])
      step none h = say-Denies sv _
      step (some name) h = run-Denies name fuel (word ∷ args) h

  serve-Denies :
      (fuel : ℕ) (line : Bytes)
      → is_open_line (decode_string line) ≡ false
      → IfServed (serve db sv z n t rsa_challenge new_id fuel line)
  unfolding serve
  serve-Denies fuel line h = step (decode_string line) h
    where
      step :
          (p : Parse (List Bytes))
          → is_open_line p ≡ false
          → IfServed (elim p [
            | done argv ↦ obey db sv z n t rsa_challenge new_id fuel argv
            | fail ↦ some (say sv (reply code_invalid "parse error"))
            | stuck ↦ some (λ sh w. (spins, (sh, w)))
          ])
      step (done argv) h = obey-Denies fuel argv h
      step fail h = say-Denies sv _
      step stuck h = record { denies = λ sh h. (spins, λ w. refl) }

  -- A client that has not proved who it is learns nothing of the server and changes nothing by its
  -- line: the answer is one that does not depend on the server, and the shell and the server stay as
  -- they are. Excepted are the lines of `login`, `respond`, `acct_set`, `acct_destroy`, `acct_read`,
  -- `denom_destroy` and `note_read`, and the commands that are not modelled, for which `serve` is
  -- `none`.
  pub serve-denies :
      (fuel : ℕ) (line : Bytes) (c : Command sv z.Z) (sh : Shell db.State z.Z)
      → is_open_line (decode_string line) ≡ false
      → serve db sv z n t rsa_challenge new_id fuel line ≡ some c
      → sh.status ≡ false
      → (r : Answer) × ((w : sv.World) → c sh w ≡ (r, (sh, w)))
  serve-denies fuel line c sh h e off = (subst IfServed e (serve-Denies fuel line h)).denies sh off
