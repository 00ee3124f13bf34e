-- ===== src/Bif/Shell/Login.antt =====
-- The commands of bif/shell.cc with which a client proves who it is.
pub mod Proved
pub mod Closing
mod Tests
use d_barter.Base.{ℕ, true, false, not, Option, none, some, List, [], ◌∷◌, if◌then◌else◌}
use d_barter.Base.Bytes.{Bytes}
use d_barter.Bom.Store.{Result, ok, err, Store}
use d_barter.Bom.Acct
use d_barter.Dmath.Integer.{Integer}
use d_barter.Bif.Shell.{
  reply, listing, refuse, go, Body, pure, halt, ◌>>=◌, ◌>>◌, check, refuse_if, Shell, Server, Ended,
  done, refused, Answer, code_usage, code_noauth, code_db, code_invalid, code_success,
}
use d_barter.Bif.Shell.Transact.{Command, say, Outcome, transact, answer}
use d_barter.Bif.Shell.Subject.{must_exist}

-- A server whose transactions carry a member of the shell that a body writes to, and that keeps what
-- was written when the transaction is aborted.
module _ {S Z : Type 0} where
  begun_with : {W : Type 0} → Z → Result S × W → Result (S × Z) × (W × Z)
  begun_with c (ok s, w) = (ok (s, c), (w, c))
  begun_with c (err e, w) = (err e, (w, c))

  pub carrying : Server S → Server (S × Z)
  unfolding begun_with
  carrying sv = record {
    World = sv.World × Z;
    txn_begin = λ (w, c). begun_with c (sv.txn_begin w);
    txn_commit = λ (s, c) (w, _). let (r, w') = sv.txn_commit s w in (r, (w', c));
    txn_abort = λ (s, c) (w, _). (sv.txn_abort s w, c);
    signal = λ a b (w, c). (sv.signal a b w, c);
  }

-- A body that does not touch the member, and a write to it.
pub untouched : {S Z A : Type 0} → Body S A → Body (S × Z) A
untouched m (s, c) = let (r, s') = m s in (r, (s', c))

pub write_member : {S Z : Type 0} → Z → Body (S × Z) (Unit {0})
write_member c (s, _) = (go tt, (s, c))

-- The transaction of the client with the member, and without it.
pub with_challenge : {S Z : Type 0} → Option S → Z → Option (S × Z)
with_challenge none c = none
with_challenge (some s) c = some (s, c)

pub without_challenge : {S Z : Type 0} → Option (S × Z) → Option S
without_challenge none = none
without_challenge (some (s, _)) = some s

pub challenge_of : {S Z : Type 0} → Option (S × Z) → Z → Z
challenge_of none c = c
challenge_of (some (_, c)) _ = c

module _ (db : Store) (z : Integer) where
  open db use {State}

  -- `rsa_challenge` of the modulus is a parameter.
  pub login_body : (z.Z → z.Z) → Bytes → Body (State × z.Z) z.Z
  login_body rsa_challenge id = do
    untouched (must_exist (Acct.exists db id) "acct does not exist")
    made ← untouched (check (Acct.create_challenge db z rsa_challenge id))
    elim made [
      | none ↦ halt (refuse (reply code_db "database error: cannot make challenge"))
      | some c ↦ do write_member c; pure c
    ]

  pub respond_body : Bytes → z.Z → z.Z → Body State (Unit {0})
  respond_body id c response = do
    good ← check (Acct.verify_reponse db z id c response)
    refuse_if (not good) (reply code_noauth "cannot verify signature")

  module _ (sv : Server State) where
    open sv use {World}

    logged_in :
        Bytes
        → Shell State z.Z
        → Outcome (carrying {Z = z.Z} sv) z.Z
        → Answer × (Shell State z.Z × World)
    unfolding carrying
    logged_in id sh (e, (p, (w, c))) =
        let sh' = record sh { challenge = challenge_of p c } in
        let after : Shell State z.Z = elim e [
          | done _ ↦ record sh' { acct = some id; status = false }
          | other ↦ sh'
        ] in
        answer sv (λ k. listing "challenge" (z.to_string k ∷ [])) after
          (e, (without_challenge p, w))

    -- The usage is written without its code.
    pub cmd_login : (z.Z → z.Z) → ℕ → List Bytes → Command sv z.Z
    unfolding logged_in carrying
    cmd_login rsa_challenge fuel (_ ∷ id ∷ []) sh w = logged_in id sh (
        transact (carrying sv) fuel (login_body rsa_challenge id)
          (with_challenge sh.parent sh.challenge) (w, sh.challenge))
    cmd_login rsa_challenge fuel argv sh w = say sv (reply 0 "usage: login acctid") sh w

    -- A wrong signature makes the shell forget the account.
    responded : Shell State z.Z → Outcome sv (Unit {0}) → Answer × (Shell State z.Z × World)
    responded sh (e, pw) =
        let after : Shell State z.Z = elim e [
          | done _ ↦ record sh { status = true }
          | refused _ ↦ record sh { acct = none; status = false }
          | other ↦ sh
        ] in
        answer sv (λ _. reply code_success "response accepted") after (e, pw)

    respond_as : ℕ → Option Bytes → Option z.Z → Command sv z.Z
    unfolding responded
    respond_as fuel none r sh w = say sv (reply code_invalid "challenge not issued") sh w
    respond_as fuel (some id) none sh w =
        say sv (reply code_invalid "invalid input (signature must be hex string)") sh w
    respond_as fuel (some id) (some r) sh w =
        responded sh (transact sv fuel (respond_body id sh.challenge r) sh.parent w)

    pub cmd_respond : ℕ → List Bytes → Command sv z.Z
    unfolding respond_as
    cmd_respond fuel (_ ∷ signature ∷ []) sh w =
        (if sh.status
            then say sv (reply code_invalid "already logged on")
            else respond_as fuel sh.acct (z.of_string signature))
          sh w
    cmd_respond fuel argv sh w = say sv (reply code_usage "usage: respond signature") sh w
