-- ===== src/Bif/Shell/Events/Forgotten.antt =====
-- What the command `event_send` of bif/shell.cc leaves behind when there is no recipient.
use d_barter.Base.{ℕ, suc, ◌≡◌, refl, ap, ◌∙◌, true, false, none, some, [], ◌∷◌}
use d_barter.Base.Bytes.{Bytes}
use d_barter.Bom.Store.{Result, ok, err, Store}
use d_barter.Bom.Acct.Balance.{ok-injective}
use d_barter.Bom.Acct
use d_barter.Bif.Shell.{
  Reply, reply, Step, stop, leave, Shell, Server, said, code_notfound, caller, refused, LeavingBody,
  check,
}
use d_barter.Bif.Shell.Transact.{
  if_authenticated, in_txn, transact, alone, began, ended_alone, stopped_alone, answer,
}
use d_barter.Bif.Shell.Inversion.{check-ok, go-bind}
use d_barter.Bif.Shell.Laws.{IsCounted}
use d_barter.Bif.Shell.Events.{leave_if, send_if, send_body, cmd_event_send}

module _ {S : Type 0} (sv : Server S) where
  -- A body that returns without the end of its transaction, in one of its own.
  alone-leave :
      {A : Type 0} (fuel : ℕ) (body : LeavingBody S A) (r : Reply) (w : sv.World) (s s' : S)
      → (sv.txn_begin w).0 ≡ ok s
      → body s ≡ (stop (leave refl r), s')
      → alone sv (suc fuel) body w ≡ (refused r, (none, (sv.txn_begin w).1))
  unfolding alone began ended_alone stopped_alone
  alone-leave {A} fuel body r w s s' b h = step (sv.txn_begin w) b
    where
      ended :
          (x : Step true A × S) (w' : sv.World)
          → x ≡ (stop (leave refl r), s')
          → ended_alone sv (alone sv fuel body) x w' ≡ (refused r, (none, w'))
      ended x w' e = rw e refl

      step :
          (x : Result S × sv.World)
          → x.0 ≡ ok s
          → began sv (ended_alone sv (alone sv fuel body)) body x ≡ (refused r, (none, x.1))
      step (ok s1, w') e = ended (body s1) w' (ap body (ok-injective e) ∙ h)
      step (err x, w') e = absurd (cc e)

left-open :
    (db : Store) (me to message : Bytes) (s s' : db.State)
    → Acct.exists db to s ≡ (ok false, s')
    → send_body db to message (some me) s
      ≡ (stop (leave refl (reply code_notfound "recipient not found")), s')
unfolding send_body send_if leave_if caller
left-open db me to message s s' h =
    go-bind (check (Acct.exists db to)) (send_if db me to message) s s' false
      (check-ok (Acct.exists db to) s s' false h)

module _ (db : Store) (sv : Server db.State) (law : IsCounted sv) {Z : Type 0} where
  open db use {State}

  -- An authenticated client without a transaction that sends a message to an account that does not
  -- exist is told so, and the transaction of the command stays open: behind the command there is one
  -- more than before, and the shell has none. The begin succeeds, and the fuel is not 0.
  pub cmd_event_send-forgets :
      (fuel : ℕ) (word me to message : Bytes) (challenge : Z) (w : sv.World) (s s' : State)
      → (sv.txn_begin w).0 ≡ ok s
      → Acct.exists db to s ≡ (ok false, s')
      → let sh : Shell State Z = record {
        status = true;
        acct = some me;
        challenge = challenge;
        parent = none;
      } in
        let out = cmd_event_send db sv (suc fuel) (word ∷ to ∷ message ∷ []) sh w in
        (out.0 ≡ said (reply code_notfound "recipient not found"))
        × (out.1.0.parent ≡ none)
        × (law.open_txns out.1.1 ≡ suc (law.open_txns w))
  unfolding cmd_event_send if_authenticated in_txn transact answer
  cmd_event_send-forgets fuel word me to message challenge w s s' b h =
      rw
        (alone-leave sv fuel (send_body db to message (some me)) _ w s s' b
          (left-open db me to message s s' h))
        (refl, refl, law.begin_opens w s b)
