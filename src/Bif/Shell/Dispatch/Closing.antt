-- ===== src/Bif/Shell/Dispatch/Closing.antt =====
-- A line of a client forgets no transaction, but for the three commands of bif/shell.cc that return
-- without the end of theirs.
use d_barter.Base.{ℕ, ◌≡◌, refl, subst, Bool, true, false, Option, none, some, List, [], ◌∷◌}
use d_barter.Base.Bytes.{Bytes}
use d_barter.Bom.Store.{Store}
use d_barter.Dmath.Integer.{Integer}
use d_barter.Dmath.Quantity.{Quantity, Ratio}
use d_barter.Bif.Codec.{decode_string, Parse, done, fail, stuck}
use d_barter.Bif.Shell.{Shell, Server, Answer, reply, spins, code_invalid}
use d_barter.Bif.Shell.Transact.{Command, say}
use d_barter.Bif.Shell.Laws.{IsCounted}
use d_barter.Bif.Shell.Open.{with_own}
use d_barter.Bif.Shell.Open.Commands.{
  Closes, say-Closes, SettledCommand, balanced, crashed_or_spins, is_answer,
}
use d_barter.Bif.Shell.Login.Closing.{cmd_login-Closes, cmd_respond-Closes}
use d_barter.Bif.Shell.Txns.Closing.{
  cmd_txn_commit-Closes, cmd_txn_abort-Closes, cmd_txn_read-Closes,
}
use d_barter.Bif.Shell.Events.Closing.{cmd_event_read-Closes, cmd_event_list-Closes}
use d_barter.Bif.Shell.Accts.Closing.{
  cmd_acct_create-Closes, cmd_acct_read-Closes, cmd_acct_set-Closes, cmd_acct_destroy-Closes,
  cmd_balance-Closes,
}
use d_barter.Bif.Shell.Denoms.Closing.{
  cmd_denom_create-Closes, cmd_denom_read-Closes, cmd_denom_set-Closes, cmd_denom_destroy-Closes,
  cmd_denom_list_all-Closes, cmd_denom_list-Closes, cmd_denom_search-Closes,
}
use d_barter.Bif.Shell.Notes.Closing.{
  cmd_note_read-Closes, cmd_note_list-Closes, cmd_note_withdraw-Closes, cmd_note_deposit-Closes,
}
use d_barter.Bif.Shell.Offers.Closing.{
  cmd_offer_read-Closes, cmd_offer_list-Closes, cmd_offer_list_by_denom-Closes,
  cmd_offer_create-Closes, cmd_offer_destroy-Closes,
}
use d_barter.Bif.Shell.Money.Closing.{cmd_credit-Closes, cmd_debit-Closes}
use d_barter.Bif.Shell.Dispatch.{
  Name, help, exit, shutdown, login, respond, connect, reconnect, disconnect, txn_create,
  txn_commit, txn_abort, txn_read, event_read, event_list, event_last, event_send, acct_create,
  acct_read, acct_set, acct_destroy, denom_create, denom_read, denom_set, denom_destroy,
  denom_list_all, denom_list, denom_search, note_read, note_list, note_withdraw, note_deposit,
  offer_read, offer_list, offer_list_by_denom, offer_create, offer_destroy, balance, credit, debit,
  command_lookup, cmd_help, run, unknown, obey, serve,
}

-- The commands that return without the end of their transaction.
abbrev pub forgets : Name → Bool
forgets txn_create = true
forgets event_send = true
forgets event_last = true
forgets name = false

-- Whether a line is one of theirs.
abbrev pub is_word_of : Option Name → Bool
is_word_of none = false
is_word_of (some name) = forgets name

abbrev pub forgetful : Parse (List Bytes) → Bool
forgetful (done (word ∷ args)) = is_word_of (command_lookup word)
forgetful p = false

module _ (db : Store) (sv : Server db.State) (law : IsCounted sv) (k : ℕ) (z : Integer)
    (n : Quantity) (t : Ratio n) (rsa_challenge : z.Z → z.Z) (new_id : Bytes) where
  -- The command that a line stands for, where it is modelled.
  abbrev pub IfServed : Option (Command sv z.Z) → Type 0
  IfServed none = Unit
  IfServed (some c) = Closes sv law k c

  cmd_help-Closes :
      (argv : List Bytes) → Closes sv law k (cmd_help db sv z n t rsa_challenge new_id argv)
  unfolding cmd_help
  cmd_help-Closes (_ ∷ []) = say-Closes sv law k _
  cmd_help-Closes argv = say-Closes sv law k _

  run-Closes :
      (name : Name) (fuel : ℕ) (argv : List Bytes)
      → forgets name ≡ false
      → IfServed (run db sv z n t rsa_challenge new_id name fuel argv)
  unfolding run
  run-Closes help fuel argv h = cmd_help-Closes argv
  run-Closes exit fuel argv h = tt
  run-Closes shutdown fuel argv h = tt
  run-Closes login fuel argv h = cmd_login-Closes db sv law k z rsa_challenge fuel argv
  run-Closes respond fuel argv h = cmd_respond-Closes db sv law k z fuel argv
  run-Closes connect fuel argv h = tt
  run-Closes reconnect fuel argv h = tt
  run-Closes disconnect fuel argv h = tt
  run-Closes txn_create fuel argv h = absurd (cc h)
  run-Closes txn_commit fuel argv h = cmd_txn_commit-Closes db sv law k argv
  run-Closes txn_abort fuel argv h = cmd_txn_abort-Closes db sv law k argv
  run-Closes txn_read fuel argv h = cmd_txn_read-Closes db sv law k fuel argv
  run-Closes event_read fuel argv h = cmd_event_read-Closes db sv law k fuel argv
  run-Closes event_list fuel argv h = cmd_event_list-Closes db sv law k fuel argv
  run-Closes event_last fuel argv h = absurd (cc h)
  run-Closes event_send fuel argv h = absurd (cc h)
  run-Closes acct_create fuel argv h = cmd_acct_create-Closes db sv law k z n fuel argv
  run-Closes acct_read fuel argv h = cmd_acct_read-Closes db sv law k z n fuel argv
  run-Closes acct_set fuel argv h = cmd_acct_set-Closes db sv law k z n fuel argv
  run-Closes acct_destroy fuel argv h = cmd_acct_destroy-Closes db sv law k z n fuel argv
  run-Closes denom_create fuel argv h = cmd_denom_create-Closes db sv law k fuel argv
  run-Closes denom_read fuel argv h = cmd_denom_read-Closes db sv law k fuel argv
  run-Closes denom_set fuel argv h = cmd_denom_set-Closes db sv law k fuel argv
  run-Closes denom_destroy fuel argv h = cmd_denom_destroy-Closes db sv law k fuel argv
  run-Closes denom_list_all fuel argv h = cmd_denom_list_all-Closes db sv law k fuel argv
  run-Closes denom_list fuel argv h = cmd_denom_list-Closes db sv law k fuel argv
  run-Closes denom_search fuel argv h = cmd_denom_search-Closes db sv law k fuel argv
  run-Closes note_read fuel argv h = cmd_note_read-Closes db sv law k z n rsa_challenge fuel argv
  run-Closes note_list fuel argv h = cmd_note_list-Closes db sv law k z n rsa_challenge fuel argv
  run-Closes note_withdraw fuel argv h =
      cmd_note_withdraw-Closes db sv law k z n rsa_challenge new_id fuel argv
  run-Closes note_deposit fuel argv h =
      cmd_note_deposit-Closes db sv law k z n rsa_challenge fuel argv
  run-Closes offer_read fuel argv h = cmd_offer_read-Closes db sv law k n fuel argv
  run-Closes offer_list fuel argv h = cmd_offer_list-Closes db sv law k n fuel argv
  run-Closes offer_list_by_denom fuel argv h =
      cmd_offer_list_by_denom-Closes db sv law k n fuel argv
  run-Closes offer_create fuel argv h = cmd_offer_create-Closes db sv law k n t new_id fuel argv
  run-Closes offer_destroy fuel argv h = cmd_offer_destroy-Closes db sv law k n fuel argv
  run-Closes balance fuel argv h = cmd_balance-Closes db sv law k z n fuel argv
  run-Closes credit fuel argv h = cmd_credit-Closes db sv law k n fuel argv
  run-Closes debit fuel argv h = cmd_debit-Closes db sv law k n fuel argv

  obey-Closes :
      (fuel : ℕ) (argv : List Bytes)
      → forgetful (done argv) ≡ false
      → IfServed (obey db sv z n t rsa_challenge new_id fuel argv)
  unfolding obey unknown
  obey-Closes fuel [] h = say-Closes sv law k _
  obey-Closes fuel (word ∷ args) h = step (command_lookup word) h
    where
      step :
          (o : Option Name)
          → is_word_of o ≡ false
          → IfServed (elim o [
            | none ↦ some (unknown db sv z n t rsa_challenge new_id)
            | some name ↦ run db sv z n t rsa_challenge new_id name fuel (word ∷ args)
          ])
      step none h = say-Closes sv law k _
      step (some name) h = run-Closes name fuel (word ∷ args) h

  serve-Closes :
      (fuel : ℕ) (line : Bytes)
      → forgetful (decode_string line) ≡ false
      → IfServed (serve db sv z n t rsa_challenge new_id fuel line)
  unfolding serve
  serve-Closes fuel line h = step (decode_string line) h
    where
      step :
          (p : Parse (List Bytes))
          → forgetful p ≡ false
          → IfServed (elim p [
            | done argv ↦ obey db sv z n t rsa_challenge new_id fuel argv
            | fail ↦ some (say sv (reply code_invalid "parse error"))
            | stuck ↦ some (λ sh w. (spins, (sh, w)))
          ])
      step (done argv) h = obey-Closes fuel argv h
      step fail h = say-Closes sv law k _
      step stuck h = record { closes = λ sh w e. crashed_or_spins refl }

  balanced_of :
      (x : Answer × (Shell db.State z.Z × sv.World))
      → SettledCommand sv law k x
      → is_answer x.0 ≡ true
      → law.open_txns x.1.1 ≡ with_own x.1.0.parent k
  balanced_of (r, (sh, w)) (balanced h) a = h
  balanced_of (r, (sh, w)) (crashed_or_spins h) a = absurd (cc (h, a))

  -- Whatever line a client sends, with whatever fuel, its command `c` forgets no transaction: if
  -- before it the transactions that are open are the client's, if its shell has one, and `k`
  -- others, and the command answers, then behind it they are the one that the shell then has, if
  -- any, and `k` others. Excepted are the lines of `txn_create`, `event_send` and `event_last`, and
  -- the commands that are not modelled, for which `serve` is `none`.
  pub serve-open_txns :
      (fuel : ℕ) (line : Bytes) (c : Command sv z.Z) (sh : Shell db.State z.Z) (w : sv.World)
      → forgetful (decode_string line) ≡ false
      → serve db sv z n t rsa_challenge new_id fuel line ≡ some c
      → law.open_txns w ≡ with_own sh.parent k
      → is_answer (c sh w).0 ≡ true
      → law.open_txns (c sh w).1.1 ≡ with_own (c sh w).1.0.parent k
  serve-open_txns fuel line c sh w f e h a =
      balanced_of (c sh w) ((subst IfServed e (serve-Closes fuel line f)).closes sh w h) a
