-- ===== src/Bif/Shell/Login/Proved.antt =====
-- When a shell becomes authenticated (bif/shell.cc).
use d_barter.Base.{
  ℕ, ◌≡◌, refl, ap, ◌∙◌, Bool, true, false, not, Option, none, some, [], ◌∷◌, if◌then◌else◌,
}
use d_barter.Base.Bytes.{Bytes}
use d_barter.Bom.Store.{ok, Store}
use d_barter.Bom.Acct.{verify_reponse}
use d_barter.Dmath.Integer.{Integer}
use d_barter.Bif.Shell.{
  Shell, Server, go, check, refuse_if, done, refused, broken, crashed, spinning,
}
use d_barter.Bif.Shell.Transact.{Command, Outcome, transact, answer, alone}
use d_barter.Bif.Shell.Laws.{IsServer}
use d_barter.Bif.Shell.Atomic.{Atomic, took_effect, unchanged, alone-Atomic}
use d_barter.Bif.Shell.Inversion.{bind-go, check-go, refuse_if-go, true_of_not}
use d_barter.Bif.Shell.Login.{respond_body, responded, respond_as, cmd_respond}

module _ (db : Store) (z : Integer) (sv : Server db.State) (law : IsServer sv) where
  open db use {State}

  -- The response was found right in the state `s`.
  abbrev pub Verified : Bytes → z.Z → z.Z → State → Type 0
  Verified id c r s = (verify_reponse db z id c r s).0 ≡ ok true

  respond_body-Verified :
      (id : Bytes) (c r : z.Z) (s s' : State)
      → respond_body db z id c r s ≡ (go tt, s')
      → Verified id c r s
  unfolding respond_body
  respond_body-Verified id c r s s' h =
      let (good, s1, p, q) =
        bind-go (check (verify_reponse db z id c r)) (λ good. refuse_if (not good) _) s s' tt h in
      let (e, _) = refuse_if-go (not good) _ s1 s' q in
      ap (λ x. x.0) (check-go (verify_reponse db z id c r) s s1 good p) ∙ ap ok (true_of_not good e)

  responded-Verified :
      (id : Bytes) (r : z.Z) (s : State) (sh : Shell State z.Z) (o : Outcome sv (Unit {0}))
      → sh.status ≡ false
      → Atomic sv law (respond_body db z id sh.challenge r) s o
      → (responded db z sv sh o).1.0.status ≡ true
      → Verified id sh.challenge r s
  unfolding responded answer
  responded-Verified id r s sh (done tt, (p, w)) off (took_effect e k) on =
      respond_body-Verified id sh.challenge r s _
        (ap (λ x. (x, (respond_body db z id sh.challenge r s).1)) e)
  responded-Verified id r s sh (done tt, (p, w)) off (unchanged e k) on = absurd (cc e)
  responded-Verified id r s sh (refused x, (p, w)) off h on = absurd (cc on)
  responded-Verified id r s sh (broken x, (p, w)) off h on = absurd (cc (off, on))
  responded-Verified id r s sh (crashed, (p, w)) off h on = absurd (cc (off, on))
  responded-Verified id r s sh (spinning, (p, w)) off h on = absurd (cc (off, on))

  -- Some response to the challenge of the shell was found right for its account.
  abbrev pub Proven : Shell State z.Z → Option z.Z → State → Type 0
  Proven sh r s =
      (id : Bytes) × ((k : z.Z) × (sh.acct ≡ some id × (r ≡ some k × Verified id sh.challenge k s)))

  transact-alone :
      (p : Option State) (fuel : ℕ) (sh : Shell State z.Z) (id : Bytes) (k : z.Z) (w : sv.World)
      → p ≡ none
      → sh.status ≡ false
      → (responded db z sv sh
          (transact sv fuel (respond_body db z id sh.challenge k) p w)).1.0.status
        ≡ true
      → Verified id sh.challenge k (law.data_of w)
  unfolding transact
  transact-alone none fuel sh id k w e off on =
      responded-Verified id k (law.data_of w) sh
        (alone sv fuel (respond_body db z id sh.challenge k) w) off
        (alone-Atomic sv law fuel (respond_body db z id sh.challenge k) (law.data_of w) w refl) on
  transact-alone (some s) fuel sh id k w e off on = absurd (cc e)

  respond_as-Proven :
      (fuel : ℕ) (a : Option Bytes) (r : Option z.Z) (sh : Shell State z.Z) (w : sv.World)
      → sh.acct ≡ a
      → sh.parent ≡ none
      → sh.status ≡ false
      → (respond_as db z sv fuel a r sh w).1.0.status ≡ true
      → Proven sh r (law.data_of w)
  unfolding respond_as
  respond_as-Proven fuel none r sh w e p off on = absurd (cc (off, on))
  respond_as-Proven fuel (some id) none sh w e p off on = absurd (cc (off, on))
  respond_as-Proven fuel (some id) (some k) sh w e p off on =
      (id, (k, (e, (refl, transact-alone sh.parent fuel sh id k w p off on))))

  not_yet :
      (b : Bool) (c d : Command sv z.Z) (sh : Shell State z.Z) (w : sv.World)
      → b ≡ false
      → ((if b then c else d) sh w).1.0.status ≡ true
      → (d sh w).1.0.status ≡ true
  not_yet true c d sh w e on = absurd (cc e)
  not_yet false c d sh w e on = on

  -- A shell that is not authenticated and whose client has no open transaction becomes authenticated
  -- by `respond` only if it had an account, the argument reads as a number, and `verify_reponse`
  -- accepts that number, for the account and the challenge of the shell, on the committed data.
  pub cmd_respond-authenticates :
      (fuel : ℕ) (name signature : Bytes) (sh : Shell State z.Z) (w : sv.World)
      → sh.parent ≡ none
      → sh.status ≡ false
      → (cmd_respond db z sv fuel (name ∷ signature ∷ []) sh w).1.0.status ≡ true
      → Proven sh (z.of_string signature) (law.data_of w)
  unfolding cmd_respond
  cmd_respond-authenticates fuel name signature sh w p off on =
      respond_as-Proven fuel sh.acct (z.of_string signature) sh w refl p off
        (not_yet sh.status _ (respond_as db z sv fuel sh.acct (z.of_string signature)) sh w off on)
