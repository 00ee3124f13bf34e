-- ===== src/Bif/Shell/Txns.antt =====
-- The commands of bif/shell.cc that open, close and look at transactions. The list of a command's
-- arguments begins with its name.
pub mod Closing
pub mod Guarded
use d_barter.Base.{
  ℕ, true, zero, suc, not, Option, none, some, List, [], ◌∷◌, ◌++◌, ◌&&◌, if◌then◌else◌,
}
use d_barter.Base.Bytes.{Bytes, codes, str_eq}
use d_barter.Bom.Store.{Result, ok, err, Store}
use d_barter.Bom.Acct
use d_barter.Bom.Acct.{is_super, is_txn}
use d_barter.Bom.Tid
use d_barter.Bif.Shell.{
  reply, listing, success, Step, go, stop, Body, LeavingBody, pure, ◌>>=◌, ◌>>◌, check, Shell,
  caller, Server, done, spinning, Answer, said, code_usage, code_noauth, code_invalid, code_aborted,
}
use d_barter.Bif.Shell.Transact.{
  Command, Outcome, say, if_authenticated, in_txn, began, stopped_alone, answer,
}
use d_barter.Bif.Shell.Subject.{must_exist, must_be_super}
use d_barter.Bif.Shell.Events.{leave_if}

module _ (db : Store) where
  open db use {State}

  -- A refusal leaves the transaction open, and the shell does not keep it.
  pub create_body : Bytes → Option Bytes → LeavingBody State Bytes
  create_body tid acct = do
    me ← caller acct
    flags ← check (Acct.get_flags db me)
    leave_if (not (is_txn flags) && not (is_super flags)) (reply code_noauth "permission denied")
    check (Tid.set_acct db tid me)
    check (Tid.set_command db tid [])
    pure tid

  pub read_body : Bytes → Option Bytes → Body State (List Bytes)
  read_body tid acct = do
    must_exist (Tid.exists db tid) "no such txn"
    owner ← check (Tid.get_acct db tid)
    me ← caller acct
    if str_eq owner me then pure tt else must_be_super db me "permission denied"
    pure ((codes "id " ++ tid) ∷ (codes "acct " ++ owner) ∷ [])

  module _ (sv : Server State) where
    open sv use {World, txn_begin, txn_commit, txn_abort}

    -- The end of `txn_create`, which keeps the transaction, or starts over.
    pub kept : (World → Outcome sv Bytes) → Step true Bytes × State → World → Outcome sv Bytes
    kept again (go tid, s) w = (done tid, (some s, w))
    kept again (stop e, s) w = stopped_alone sv again e s w

    pub open_txn : ℕ → LeavingBody State Bytes → World → Outcome sv Bytes
    open_txn zero body w = (spinning, (none, w))
    open_txn (suc fuel) body w = began sv (kept (open_txn fuel body)) body (txn_begin w)

    module _ {Z : Type 0} where
      txn_create : Bytes → ℕ → Option State → Command sv Z
      txn_create tid fuel (some s) sh w =
          say sv (reply code_invalid "already in a transaction") sh w
      txn_create tid fuel none sh w =
          answer sv (λ id. listing "success; txn id follows" (id ∷ [])) sh
            (open_txn fuel (create_body tid sh.acct) w)

      -- The identifier that `gen_id` makes of the time and a random number is a parameter.
      pub cmd_txn_create : Bytes → ℕ → List Bytes → Command sv Z
      unfolding txn_create
      cmd_txn_create tid fuel (_ ∷ []) =
          if_authenticated sv (λ sh w. txn_create tid fuel sh.parent sh w)
      cmd_txn_create tid fuel argv = say sv (reply code_usage "usage: txn_create")

      -- A commit that fails is followed by an abort.
      unfoldable pub txn_ended :
          Shell State Z → State → Result (Unit {0}) × World → Answer × (Shell State Z × World)
      txn_ended sh s (ok _, w) = (said success, (record sh { parent = none }, w))
      txn_ended sh s (err e, w) = (
        said (reply code_aborted "transaction aborted"),
        (record sh { parent = none }, txn_abort s w),
      )

      unfoldable pub txn_commit_of : Option State → Command sv Z
      unfolding txn_ended
      txn_commit_of none sh w = say sv (reply code_invalid "not in a transaction") sh w
      txn_commit_of (some s) sh w = txn_ended sh s (txn_commit s w)

      unfoldable pub cmd_txn_commit : List Bytes → Command sv Z
      unfolding txn_commit_of
      cmd_txn_commit (_ ∷ []) = if_authenticated sv (λ sh w. txn_commit_of sh.parent sh w)
      cmd_txn_commit argv = say sv (reply code_usage "usage: txn_commit")

      txn_abort_of : Option State → Command sv Z
      txn_abort_of none sh w = say sv (reply code_invalid "not in a transaction") sh w
      txn_abort_of (some s) sh w = (said success, (record sh { parent = none }, txn_abort s w))

      pub cmd_txn_abort : List Bytes → Command sv Z
      unfolding txn_abort_of
      cmd_txn_abort (_ ∷ []) = if_authenticated sv (λ sh w. txn_abort_of sh.parent sh w)
      cmd_txn_abort argv = say sv (reply code_usage "usage: txn_abort")

      pub cmd_txn_read : ℕ → List Bytes → Command sv Z
      cmd_txn_read fuel (_ ∷ tid ∷ []) =
          if_authenticated sv
            (in_txn sv fuel (λ sh. read_body tid sh.acct) (listing "txn attributes follow"))
      cmd_txn_read fuel argv = say sv (reply code_usage "usage: txn_read txn")
