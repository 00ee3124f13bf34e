-- ===== src/Bif/Shell/Accts/Unguarded.antt =====
-- The command `acct_set` of bif/shell.cc does not ask whether the client has proved who it is.
use d_barter.Base.{ℕ, ◌≡◌, refl, Bool, Option, none, some, List, [], ◌∷◌}
use d_barter.Base.Bytes.{Bytes}
use d_barter.Bom.Store.{Store}
use d_barter.Dmath.Integer.{Integer}
use d_barter.Dmath.Quantity.{Quantity}
use d_barter.Bif.Shell.{Reply, Shell, Server, done, refused, broken, crashed, spinning, Answer}
use d_barter.Bif.Shell.Transact.{Outcome, Command, say, in_txn, transact, answer}
use d_barter.Bif.Shell.Accts.{AcctAttr, acct_attr, set_body, cmd_acct_set}

module _ {S Z : Type 0} (sv : Server S) where
  -- The same answer, the same server, and the same shell but for its status.
  abbrev pub SameEffect : Answer × (Shell S Z × sv.World) → Answer × (Shell S Z × sv.World) → Type 0
  SameEffect x y =
      (x.0 ≡ y.0) × (x.1.1 ≡ y.1.1) × (x.1.0.acct ≡ y.1.0.acct) × (x.1.0.parent ≡ y.1.0.parent)

  answer-SameEffect :
      {A : Type 0} (f : A → Reply) (sh : Shell S Z) (b : Bool) (o : Outcome sv A)
      → SameEffect (answer sv f (record sh { status = b }) o) (answer sv f sh o)
  unfolding answer
  answer-SameEffect f sh b (done a, (p, w)) = (refl, refl, refl, refl)
  answer-SameEffect f sh b (refused r, (p, w)) = (refl, refl, refl, refl)
  answer-SameEffect f sh b (broken r, (p, w)) = (refl, refl, refl, refl)
  answer-SameEffect f sh b (crashed, (p, w)) = (refl, refl, refl, refl)
  answer-SameEffect f sh b (spinning, (p, w)) = (refl, refl, refl, refl)

module _ (db : Store) (sv : Server db.State) (z : Integer) (n : Quantity) where
  attr-SameEffect :
      (o : Option AcctAttr) (fuel : ℕ) (id value : Bytes) (sh : Shell db.State z.Z) (b : Bool)
      (w : sv.World) (bad : Reply) (f : Unit {0} → Reply)
      → let c : Command sv z.Z = elim o [
        | none ↦ say sv bad
        | some attr ↦ in_txn sv fuel (λ sh. set_body db z id attr value sh.acct) f
      ] in
        SameEffect sv (c (record sh { status = b }) w) (c sh w)
  unfolding in_txn
  attr-SameEffect none fuel id value sh b w bad f = (refl, refl, refl, refl)
  attr-SameEffect (some attr) fuel id value sh b w bad f =
      answer-SameEffect sv f sh b
        (transact sv fuel (set_body db z id attr value sh.acct) sh.parent w)

  -- A client that has named an account with `login`, and has not answered its challenge, gets the
  -- same from `acct_set` as one that has: the answer and the effect do not depend on the status.
  pub cmd_acct_set-ignores_status :
      (fuel : ℕ) (argv : List Bytes) (sh : Shell db.State z.Z) (b : Bool) (w : sv.World)
      → SameEffect sv
          (cmd_acct_set db sv z n fuel argv (record sh { status = b }) w)
          (cmd_acct_set db sv z n fuel argv sh w)
  unfolding cmd_acct_set
  cmd_acct_set-ignores_status fuel (_ ∷ id ∷ name ∷ value ∷ []) sh b w =
      attr-SameEffect (acct_attr name) fuel id value sh b w _ _
  cmd_acct_set-ignores_status fuel argv sh b w = (refl, refl, refl, refl)
