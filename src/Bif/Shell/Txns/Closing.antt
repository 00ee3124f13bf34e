-- ===== src/Bif/Shell/Txns/Closing.antt =====
-- The commands `txn_commit`, `txn_abort` and `txn_read` of bif/shell.cc forget no transaction.
use d_barter.Base.{ℕ, suc, ◌≡◌, ◌∙◌, ap, refl, Option, none, some, List, [], ◌∷◌, arith}
use d_barter.Base.Bytes.{Bytes}
use d_barter.Bom.Store.{Error, Result, ok, err, Store}
use d_barter.Bif.Shell.{Server, Shell}
use d_barter.Bif.Shell.Laws.{IsCounted}
use d_barter.Bif.Shell.Open.{with_own, aborted}
use d_barter.Bif.Shell.Open.Commands.{
  SettledCommand, balanced, Closes, say-Closes, guarded-Closes, if_authenticated-Closes, AllClose,
}
use d_barter.Bif.Shell.Txns.{
  txn_ended, txn_commit_of, cmd_txn_commit, txn_abort_of, cmd_txn_abort, cmd_txn_read,
}

module _ (db : Store) (sv : Server db.State) (law : IsCounted sv) (k : ℕ) {Z : Type 0} where
  open db use {State}

  txn_ended-Settled :
      (sh : Shell State Z) (s : State) (r : Result (Unit {0}) × sv.World)
      → (r.0 ≡ ok tt → law.open_txns r.1 ≡ k)
      → ((e : Error) → r.0 ≡ err e → law.open_txns r.1 ≡ suc k)
      → SettledCommand sv law k (txn_ended db sv sh s r)
  unfolding txn_ended
  txn_ended-Settled sh s (ok tt, w) good bad = balanced (good refl)
  txn_ended-Settled sh s (err e, w) good bad = balanced (aborted sv law k s w (bad e refl))

  commit-Settled :
      (p : Option State) (sh : Shell State Z) (w : sv.World)
      → sh.parent ≡ p
      → law.open_txns w ≡ with_own sh.parent k
      → SettledCommand sv law k (txn_commit_of db sv p sh w)
  unfolding txn_commit_of
  commit-Settled none sh w e h = balanced h
  commit-Settled (some s) sh w e h =
      let h' : law.open_txns w ≡ suc k = h ∙ ap (λ p. with_own p k) e in
      txn_ended-Settled sh s (sv.txn_commit s w) (λ c. omega (arith, law.commit_closes s w c, h'))
        (λ x c. law.commit_stays s w x c ∙ h')

  pub cmd_txn_commit-Closes :
      (argv : List Bytes) → Closes sv law k {Z = Z} (cmd_txn_commit db sv argv)
  unfolding cmd_txn_commit
  cmd_txn_commit-Closes (_ ∷ []) =
      if_authenticated-Closes sv law k _
        (record { closes = λ sh w h. commit-Settled sh.parent sh w refl h })
  cmd_txn_commit-Closes argv = say-Closes sv law k _

  abort-Settled :
      (p : Option State) (sh : Shell State Z) (w : sv.World)
      → sh.parent ≡ p
      → law.open_txns w ≡ with_own sh.parent k
      → SettledCommand sv law k (txn_abort_of db sv p sh w)
  unfolding txn_abort_of
  abort-Settled none sh w e h = balanced h
  abort-Settled (some s) sh w e h = balanced (aborted sv law k s w (h ∙ ap (λ p. with_own p k) e))

  pub cmd_txn_abort-Closes :
      (argv : List Bytes) → Closes sv law k {Z = Z} (cmd_txn_abort db sv argv)
  unfolding cmd_txn_abort
  cmd_txn_abort-Closes (_ ∷ []) =
      if_authenticated-Closes sv law k _
        (record { closes = λ sh w h. abort-Settled sh.parent sh w refl h })
  cmd_txn_abort-Closes argv = say-Closes sv law k _

  pub cmd_txn_read-Closes : AllClose sv law k (cmd_txn_read db sv {Z = Z})
  unfolding cmd_txn_read
  cmd_txn_read-Closes fuel (_ ∷ tid ∷ []) = guarded-Closes sv law k fuel _ _
  cmd_txn_read-Closes fuel argv = say-Closes sv law k _
