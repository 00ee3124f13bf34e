-- ===== src/Bif/Shell/Login/Closing.antt =====
-- The commands `login` and `respond` of bif/shell.cc forget no transaction.
use d_barter.Base.{ℕ, ◌≡◌, refl, sym, ◌∙◌, Option, none, some, [], ◌∷◌}
use d_barter.Base.Bytes.{Bytes}
use d_barter.Bom.Store.{Error, Result, ok, err, Store}
use d_barter.Dmath.Integer.{Integer}
use d_barter.Bif.Shell.{Server, Shell}
use d_barter.Bif.Shell.Transact.{Outcome, say}
use d_barter.Bif.Shell.Laws.{IsCounted}
use d_barter.Bif.Shell.Open.{with_own, Settled, settled, unfinished, transact-Settled}
use d_barter.Bif.Shell.Open.Commands.{
  balanced, SettledCommand, Closes, say-Closes, if-Closes, answer-Settled, AllClose,
}
use d_barter.Bif.Shell.Login.{
  begun_with, carrying, with_challenge, without_challenge, login_body, respond_body, logged_in,
  cmd_login, responded, respond_as, cmd_respond,
}

module _ {S Z : Type 0} (sv : Server S) (law : IsCounted sv) where
  begun-opens :
      (n : ℕ) (c : Z) (s : S × Z) (r : Result S × sv.World)
      → ((s' : S) → r.0 ≡ ok s' → law.open_txns r.1 ≡ n)
      → (begun_with c r).0 ≡ ok s
      → law.open_txns (begun_with c r).1.0 ≡ n
  unfolding begun_with
  begun-opens n c s (ok s', w) h e = h s' refl
  begun-opens n c s (err x, w) h e = absurd (cc e)

  begun-fails :
      (n : ℕ) (c : Z) (e : Error) (r : Result S × sv.World)
      → ((e' : Error) → r.0 ≡ err e' → law.open_txns r.1 ≡ n)
      → (begun_with c r).0 ≡ err e
      → law.open_txns (begun_with c r).1.0 ≡ n
  unfolding begun_with
  begun-fails n c e (ok s, w) h q = absurd (cc q)
  begun-fails n c e (err x, w) h q = h x refl

  pub carrying-IsCounted : IsCounted (carrying {Z = Z} sv)
  unfolding carrying
  carrying-IsCounted = record {
    open_txns = λ w. law.open_txns w.0;
    begin_opens = λ (w, c) s. begun-opens _ c s (sv.txn_begin w) (law.begin_opens w);
    begin_fails = λ (w, c) e. begun-fails _ c e (sv.txn_begin w) (law.begin_fails w);
    commit_closes = λ s w c. law.commit_closes s.0 w.0 c;
    commit_stays = λ s w e c. law.commit_stays s.0 w.0 e c;
    abort_closes = λ s w. law.abort_closes s.0 w.0;
    signal_stays = λ a b w. law.signal_stays a b w.0;
  }

module _ (db : Store) (sv : Server db.State) (law : IsCounted sv) (k : ℕ) (z : Integer) where
  open db use {State}

  with_own-challenge : (p : Option State) (c : z.Z) → with_own (with_challenge p c) k ≡ with_own p k
  unfolding with_challenge
  with_own-challenge none c = refl
  with_own-challenge (some s) c = refl

  with_own-without : (p : Option (State × z.Z)) → with_own p k ≡ with_own (without_challenge p) k
  unfolding without_challenge
  with_own-without none = refl
  with_own-without (some (s, c)) = refl

  logged_in-Settled :
      (id : Bytes) (sh : Shell State z.Z) (o : Outcome (carrying {Z = z.Z} sv) z.Z)
      → Settled (carrying sv) (carrying-IsCounted sv law) k o
      → SettledCommand sv law k (logged_in db z sv id sh o)
  unfolding logged_in carrying carrying-IsCounted
  logged_in-Settled id sh (e, (p, (w, c))) (settled h) =
      answer-Settled sv law k _ _ _ (settled (h ∙ with_own-without p))
  logged_in-Settled id sh (e, (p, (w, c))) (unfinished h) =
      answer-Settled sv law k _ _ _ (unfinished h)

  pub cmd_login-Closes :
      (rsa_challenge : z.Z → z.Z) → AllClose sv law k (cmd_login db z sv rsa_challenge)
  unfolding cmd_login carrying carrying-IsCounted
  cmd_login-Closes rsa_challenge fuel (_ ∷ id ∷ []) = record {
    closes = λ sh w h. logged_in-Settled id sh _ (
        transact-Settled (carrying sv) (carrying-IsCounted sv law) k fuel
          (login_body db z rsa_challenge id) (with_challenge sh.parent sh.challenge)
          (w, sh.challenge) (h ∙ sym (with_own-challenge sh.parent sh.challenge)));
  }
  cmd_login-Closes rsa_challenge fuel argv = record { closes = λ sh w h. balanced h }

  responded-Settled :
      (sh : Shell State z.Z) (o : Outcome sv (Unit {0}))
      → Settled sv law k o
      → SettledCommand sv law k (responded db z sv sh o)
  unfolding responded
  responded-Settled sh (e, (p, w)) h = answer-Settled sv law k _ _ _ h

  respond_as-Closes :
      (fuel : ℕ) (acct : Option Bytes) (r : Option z.Z)
      → Closes sv law k (respond_as db z sv fuel acct r)
  unfolding respond_as
  respond_as-Closes fuel none r = record { closes = λ sh w h. balanced h }
  respond_as-Closes fuel (some id) none = record { closes = λ sh w h. balanced h }
  respond_as-Closes fuel (some id) (some r) = record {
    closes = λ sh w h.
        responded-Settled sh _
          (transact-Settled sv law k fuel (respond_body db z id sh.challenge r) sh.parent w h);
  }

  pub cmd_respond-Closes : AllClose sv law k (cmd_respond db z sv)
  unfolding cmd_respond
  cmd_respond-Closes fuel (_ ∷ signature ∷ []) = record {
    closes = λ sh w h.
        (if-Closes sv law k sh.status (say sv _)
            (respond_as db z sv fuel sh.acct (z.of_string signature)) (say-Closes sv law k _)
            (respond_as-Closes fuel sh.acct (z.of_string signature))).closes
          sh w h;
  }
  cmd_respond-Closes fuel argv = record { closes = λ sh w h. balanced h }
