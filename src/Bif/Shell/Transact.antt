-- ===== src/Bif/Shell/Transact.antt =====
-- The macros `begin_transaction`, `abort_transaction`, `commit_transaction` and `error_check` of
-- bif/shell.cc around the body of a command.
pub mod Committed
use d_barter.Base.{Bool, ℕ, zero, suc, Option, none, some, if◌then◌else◌}
use d_barter.Bom.Store.{Error, out_of_fuel, Result, ok, err}
use d_barter.Bif.Shell.{
  code_noauth, code_aborted, Reply, reply, db_error, is_again, Stop, refuse, leave, failed,
  null_pointer, Step, go, stop, BodyOf, Shell, Server, Ended, done, refused, broken, crashed,
  spinning, Answer, said, no_answer, spins,
}

module _ {S : Type 0} (sv : Server S) where
  open sv use {World, txn_begin, txn_commit, txn_abort}

  -- How a body has ended, the transaction that the client has open behind it, and the server.
  abbrev pub Outcome : Type 0 → Type 0
  Outcome A = Ended A × (Option S × World)

  module _ {A : Type 0} where
    -- `error_check` outside a transaction of the client: EAGAIN starts over.
    unfoldable pub failed_alone : (World → Outcome A) → Error → S → World → Outcome A
    failed_alone again e s w = elim e [
      | out_of_fuel ↦ (spinning, (none, w))
      | other ↦
          if is_again other
          then again (txn_abort s w)
          else (broken (db_error other), (none, txn_abort s w))
    ]

    -- `commit_transaction`
    unfoldable pub committed : (World → Outcome A) → A → S → Result (Unit {0}) × World → Outcome A
    committed again a s (ok _, w) = (done a, (none, w))
    committed again a s (err e, w) = failed_alone again e s w

  module _ {b : Bool} {A : Type 0} where
    unfoldable pub stopped_alone : (World → Outcome A) → Stop b → S → World → Outcome A
    stopped_alone again (refuse r) s w = (refused r, (none, txn_abort s w))
    stopped_alone again (leave _ r) s w = (refused r, (none, w))
    stopped_alone again (failed e) s w = failed_alone again e s w
    stopped_alone again null_pointer s w = (crashed, (none, w))

    unfoldable pub ended_alone : (World → Outcome A) → Step b A × S → World → Outcome A
    ended_alone again (go a, s) w = committed again a s (txn_commit s w)
    ended_alone again (stop e, s) w = stopped_alone again e s w

    -- `begin_transaction`, and what follows it.
    unfoldable pub began :
        (Step b A × S → World → Outcome A) → BodyOf b S A → Result S × World → Outcome A
    began next body (ok s, w) = next (body s) w
    began next body (err e, w) = (broken (db_error e), (none, w))

    -- The body between `begin_transaction` and `commit_transaction`, in a transaction of its own; the
    -- fuel bounds how often it starts over.
    unfoldable pub alone : ℕ → BodyOf b S A → World → Outcome A
    alone zero body w = (spinning, (none, w))
    alone (suc fuel) body w = began (ended_alone (alone fuel body)) body (txn_begin w)

    -- The same in the transaction of the client, where EAGAIN ends that transaction. An error resets
    -- `parent` before the macro asks for it, so that the reply is the same as outside.
    unfoldable pub within : Step b A × S → World → Outcome A
    within (go a, s) w = (done a, (some s, w))
    within (stop (refuse r), s) w = (refused r, (some s, w))
    within (stop (leave _ r), s) w = (refused r, (some s, w))
    within (stop null_pointer, s) w = (crashed, (some s, w))
    within (stop (failed e), s) w = elim e [
      | out_of_fuel ↦ (spinning, (some s, w))
      | other ↦ (
        broken
            (if is_again other then reply code_aborted "transaction aborted" else db_error other),
        (none, txn_abort s w),
      )
    ]

    unfoldable pub transact : ℕ → BodyOf b S A → Option S → World → Outcome A
    transact fuel body none w = alone fuel body w
    transact fuel body (some s) w = within (body s) w

  -- A command: what it answers, and what it makes of the shell and the server.
  abbrev pub Command : Type 0 → Type 0
  Command Z = Shell S Z → World → Answer × (Shell S Z × World)

  module _ {Z : Type 0} where
    abbrev pub say : Reply → Command Z
    say r sh w = (said r, (sh, w))

    -- `if (!status)`
    unfoldable pub if_authenticated : Command Z → Command Z
    if_authenticated c sh w =
        if sh.status then c sh w else say (reply code_noauth "not authenticated") sh w

    -- The reply of a command whose body has ended.
    unfoldable pub answer :
        {A : Type 0} → (A → Reply) → Shell S Z → Outcome A → Answer × (Shell S Z × World)
    answer f sh (done a, (p, w)) = (said (f a), (record sh { parent = p }, w))
    answer f sh (refused r, (p, w)) = (said r, (record sh { parent = p }, w))
    answer f sh (broken r, (p, w)) = (said r, (record sh { parent = p }, w))
    answer f sh (crashed, (p, w)) = (no_answer, (record sh { parent = p }, w))
    answer f sh (spinning, (p, w)) = (spins, (record sh { parent = p }, w))

    -- A command that is a body in a transaction.
    unfoldable pub in_txn :
        {b : Bool} {A : Type 0} → ℕ → (Shell S Z → BodyOf b S A) → (A → Reply) → Command Z
    in_txn fuel body f sh w = answer f sh (transact fuel (body sh) sh.parent w)
