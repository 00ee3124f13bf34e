-- ===== src/Bif/Shell/Open.antt =====
-- No transaction is forgotten (bif/shell.cc): behind a command the transaction of its client is open,
-- if it has one, and no other that was not open before.
pub mod Commands
use d_barter.Base.{
  List, ℕ, zero, suc, ◌≡◌, refl, ◌∙◌, ap, Bool, true, false, Option, none, some, inl, inr, arith,
  Bool-cases, if◌then◌else◌,
}
use d_barter.Base.Bytes.{Bytes}
use d_barter.Bom.Store.{Error, not_found, minus_one, errno, out_of_fuel, Result, ok, err}
use d_barter.Bif.Shell.{
  db_error, is_again, Stop, refuse, leave, failed, null_pointer, Step, go, stop, BodyOf, Body,
  Shell, Server, Reply, Answer, said, Ended, done, refused, broken, crashed, spinning, reply,
  code_noauth,
}
use d_barter.Bif.Shell.Transact.{
  Outcome, failed_alone, committed, stopped_alone, ended_alone, began, alone, within, transact,
  Command, say, if_authenticated, answer, in_txn,
}
use d_barter.Bif.Shell.Laws.{IsCounted}

-- A body that has come to an end: it has not crashed the server, and has not spent its fuel.
abbrev pub is_finished : {A : Type 0} → Ended A → Bool
is_finished crashed = false
is_finished spinning = false
is_finished e = true

-- `k` transactions, and that of the client.
abbrev pub with_own : {S : Type 0} → Option S → ℕ → ℕ
with_own none k = k
with_own (some s) k = suc k

module _ {S : Type 0} (sv : Server S) (law : IsCounted sv) (k : ℕ) where
  open sv use {World}
  open law use {open_txns}

  -- The transaction that is open in an outcome that is finished is the client's, beside `k` others.
  pub data Settled {A : Type 0} : Outcome sv A → Type 0 where
    settled :
        {e : Ended A} {p : Option S} {w : World} → open_txns w ≡ with_own p k → Settled (e, (p, w))
    unfinished :
        {e : Ended A} {p : Option S} {w : World} → is_finished e ≡ false → Settled (e, (p, w))

  pub aborted : (s : S) (w : World) → open_txns w ≡ suc k → open_txns (sv.txn_abort s w) ≡ k
  aborted s w h = omega (arith, law.abort_closes s w, h)

  module _ {A : Type 0} (again : World → Outcome sv A)
      (start_over : (w : World) → open_txns w ≡ k → Settled (again w)) where
    other-Settled :
        (e : Error) (s : S) (w : World)
        → open_txns w ≡ suc k
        → Settled (
            if is_again e
            then again (sv.txn_abort s w)
            else (broken (db_error e), (none, sv.txn_abort s w)))
    other-Settled e s w h = elim (Bool-cases (is_again e)) [
      | inl same ↦ rw same (start_over _ (aborted s w h))
      | inr other ↦ rw other (settled (aborted s w h))
    ]

    pub failed-Settled :
        (e : Error) (s : S) (w : World)
        → open_txns w ≡ suc k
        → Settled (failed_alone sv again e s w)
    unfolding failed_alone
    failed-Settled not_found s w h = other-Settled not_found s w h
    failed-Settled minus_one s w h = other-Settled minus_one s w h
    failed-Settled (errno i) s w h = other-Settled (errno i) s w h
    failed-Settled out_of_fuel s w h = unfinished refl

    stopped-Settled :
        (r : Stop false) (s : S) (w : World)
        → open_txns w ≡ suc k
        → Settled (stopped_alone sv again r s w)
    unfolding stopped_alone
    stopped-Settled (refuse r) s w h = settled (aborted s w h)
    stopped-Settled (leave e r) s w h = absurd (cc e)
    stopped-Settled (failed e) s w h = failed-Settled e s w h
    stopped-Settled null_pointer s w h = unfinished refl

    committed-Settled :
        (a : A) (s : S) (r : Result (Unit {0}) × World)
        → (r.0 ≡ ok tt → open_txns r.1 ≡ k)
        → ((e : Error) → r.0 ≡ err e → open_txns r.1 ≡ suc k)
        → Settled (committed sv again a s r)
    unfolding committed
    committed-Settled a s (ok tt, w) good bad = settled (good refl)
    committed-Settled a s (err x, w) good bad = failed-Settled x s w (bad x refl)

    ended-Settled :
        (r : Step false A × S) (w : World)
        → open_txns w ≡ suc k
        → Settled (ended_alone sv again r w)
    unfolding ended_alone
    ended-Settled (go a, s) w h =
        committed-Settled a s (sv.txn_commit s w) (λ c. omega (arith, law.commit_closes s w c, h))
          (λ x c. law.commit_stays s w x c ∙ h)
    ended-Settled (stop x, s) w h = stopped-Settled x s w h

  pub began-Settled :
      {b : Bool} {A : Type 0} (next : Step b A × S → World → Outcome sv A) (body : BodyOf b S A)
      (w : World)
      → ((r : Step b A × S) (w' : World) → open_txns w' ≡ suc k → Settled (next r w'))
      → open_txns w ≡ k
      → Settled (began sv next body (sv.txn_begin w))
  unfolding began
  began-Settled {b} {A} next body w more h =
      step (sv.txn_begin w) (λ s e. law.begin_opens w s e ∙ ap suc h)
        (λ x e. law.begin_fails w x e ∙ h)
    where
      step :
          (r : Result S × World)
          → ((s : S) → r.0 ≡ ok s → open_txns r.1 ≡ suc k)
          → ((x : Error) → r.0 ≡ err x → open_txns r.1 ≡ k)
          → Settled (began sv next body r)
      step (ok s, w') good bad = more (body s) w' (good s refl)
      step (err x, w') good bad = settled (bad x refl)

  alone-Settled :
      {A : Type 0} (fuel : ℕ) (body : Body S A) (w : World)
      → open_txns w ≡ k
      → Settled (alone sv fuel body w)
  unfolding alone
  alone-Settled zero body w h = unfinished refl
  alone-Settled (suc fuel) body w h =
      began-Settled (ended_alone sv (alone sv fuel body)) body w
        (λ r w' h'. ended-Settled (alone sv fuel body) (alone-Settled fuel body) r w' h') h

  within-Settled :
      {A : Type 0} (r : Step false A × S) (w : World)
      → open_txns w ≡ suc k
      → Settled (within sv r w)
  unfolding within
  within-Settled (go a, s) w h = settled h
  within-Settled (stop (refuse r), s) w h = settled h
  within-Settled (stop (leave e r), s) w h = absurd (cc e)
  within-Settled (stop null_pointer, s) w h = unfinished refl
  within-Settled (stop (failed not_found), s) w h = settled (aborted s w h)
  within-Settled (stop (failed minus_one), s) w h = settled (aborted s w h)
  within-Settled (stop (failed (errno i)), s) w h = settled (aborted s w h)
  within-Settled (stop (failed out_of_fuel), s) w h = unfinished refl

  pub transact-Settled :
      {A : Type 0} (fuel : ℕ) (body : Body S A) (p : Option S) (w : World)
      → open_txns w ≡ with_own p k
      → Settled (transact sv fuel body p w)
  unfolding transact
  transact-Settled fuel body none w h = alone-Settled fuel body w h
  transact-Settled fuel body (some s) w h = within-Settled (body s) w h
