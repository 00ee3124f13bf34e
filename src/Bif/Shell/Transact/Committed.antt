-- ===== src/Bif/Shell/Transact/Committed.antt =====
-- A command in a transaction of its own, held against the same command in a transaction that the client
-- has opened (bif/shell.cc).
use d_barter.Base.{ℕ, ◌≡◌, false, none, some}
use d_barter.Bom.Store.{Error, out_of_fuel, Result, ok, err}
use d_barter.Bif.Shell.{
  db_error, is_again, Step, go, stop, failed, BodyOf, Server, done, refused, broken, spinning,
}
use d_barter.Bif.Shell.Transact.{Outcome, transact}

module _ {S : Type 0} (sv : Server S) {A : Type 0} where
  open sv use {World, txn_begin, txn_commit, txn_abort}

  -- The end of a client's transaction, whose commit has a result.
  closing : A → S → Result (Unit {0}) × World → Outcome sv A
  closing a s (ok _, w) = (done a, (none, w))
  closing a s (err out_of_fuel, w) = (spinning, (none, w))
  closing a s (err e, w) = (broken (db_error e), (none, txn_abort s w))

  -- What a client gets who commits its transaction if the command in it succeeded, and aborts it if
  -- the command was refused; a command with an error has aborted it before.
  pub settle : Outcome sv A → Outcome sv A
  settle (done a, (some s, w)) = closing a s (txn_commit s w)
  settle (refused r, (some s, w)) = (refused r, (none, txn_abort s w))
  settle (x, (p, w)) = (x, (none, w))

  -- The same for a client who begins the transaction.
  abbrev pub settled : ℕ → BodyOf false S A → Result S × World → Outcome sv A
  settled fuel body (ok s, w) = settle (transact sv fuel body (some s) w)
  settled fuel body (err e, w) = (broken (db_error e), (none, w))

  -- Neither a call of the body nor its commit has the result EAGAIN.
  abbrev pub NotAgain : Step false A × S → World → Type 0
  NotAgain (go a, s) w = (e : Error) → (txn_commit s w).0 ≡ err e → is_again e ≡ false
  NotAgain (stop (failed e), s) w = is_again e ≡ false
  NotAgain (stop _, s) w = Unit {0}

  abbrev pub Untroubled : BodyOf false S A → Result S × World → Type 0
  Untroubled body (ok s, w) = NotAgain (body s) w
  Untroubled body (err e, w) = Unit {0}
