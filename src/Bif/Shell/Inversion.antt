-- ===== src/Bif/Shell/Inversion.antt =====
-- Inversion of the bodies of commands (bif/shell.cc): how a body that came to its end went.
use Prim.Native.String.{String}
use d_barter.Base.{◌≡◌, refl, ap, subst, Bool, true, false, not, ℕ, some}
use d_barter.Base.Bytes.{Bytes}
use d_barter.Bom.Store.{Result, ok, err, M, Store}
use d_barter.Bom.Store.Laws.{IsStore}
use d_barter.Bom.Acct.{is_super, get_flags}
use d_barter.Bom.Acct.Licence.{flags_of, get_flags-eq_ok, Kept}
use d_barter.Bif.Shell.{Step, go, stop, failed, BodyOf, ◌>>=◌, check, refuse_if, Reply}
use d_barter.Bif.Shell.Subject.{must_exist, must_be_super}

module _ {b : Bool} {S A : Type 0} where
  pub bind-go :
      {B : Type 0} (m : BodyOf b S A) (f : A → BodyOf b S B) (s s'' : S) (y : B)
      → (m >>= f) s ≡ (go y, s'')
      → (a : A) × (s' : S) × (m s ≡ (go a, s')) × (f a s' ≡ (go y, s''))
  bind-go {B} m f s s'' y h = step (m s) refl h
    where
      step :
          (r : Step b A × S)
          → m s ≡ r
          → (let x : Step b B × S = elim r.0 [ go a ↦ f a r.1 | stop e ↦ (stop e, r.1) ] in x)
            ≡ (go y, s'')
          → (a : A) × (s' : S) × (m s ≡ (go a, s')) × (f a s' ≡ (go y, s''))
      step (go a, s') p q = (a, s', p, q)
      step (stop e, s') p q = cc

  -- A call that has ended well.
  pub check-go : (m : M S A) (s s' : S) (a : A) → check {b = b} m s ≡ (go a, s') → m s ≡ (ok a, s')
  check-go m s s' a h = step (m s) h
    where
      step :
          (r : Result A × S)
          → (let x : Step b A × S = elim r.0 [
            | ok a' ↦ (go a', r.1)
            | err e ↦ (stop (failed e), r.1)
          ] in
              x)
            ≡ (go a, s')
          → r ≡ (ok a, s')
      step (ok a', s1) q = cc
      step (err e, s1) q = cc

  pub check-ok : (m : M S A) (s s' : S) (a : A) → m s ≡ (ok a, s') → check {b = b} m s ≡ (go a, s')
  check-ok m s s' a h = step (m s) h
    where
      step :
          (r : Result A × S)
          → r ≡ (ok a, s')
          → (let x : Step b A × S = elim r.0 [
            | ok a' ↦ (go a', r.1)
            | err e ↦ (stop (failed e), r.1)
          ] in
              x)
            ≡ (go a, s')
      step (ok a', s1) q = cc
      step (err e, s1) q = cc

  pub go-bind :
      {B : Type 0} (m : BodyOf b S A) (f : A → BodyOf b S B) (s s' : S) (a : A)
      → m s ≡ (go a, s')
      → (m >>= f) s ≡ f a s'
  go-bind {B} m f s s' a h = step (m s) h
    where
      step :
          (r : Step b A × S)
          → r ≡ (go a, s')
          → (let x : Step b B × S = elim r.0 [ go a ↦ f a r.1 | stop e ↦ (stop e, r.1) ] in x)
            ≡ f a s'
      step (go a', s1) q = cc
      step (stop e, s1) q = absurd (cc (ap (λ x. x.0) q))

module _ {b : Bool} {S : Type 0} where
  pub refuse_if-go :
      (c : Bool) (r : Reply) (s s' : S)
      → refuse_if {b = b} c r s ≡ (go tt, s')
      → (c ≡ false) × (s ≡ s')
  refuse_if-go true r s s' h = absurd (cc h)
  refuse_if-go false r s s' h = (refl, ap (λ x. x.1) h)

pub true_of_not : (c : Bool) → not c ≡ false → c ≡ true
true_of_not true h = refl
true_of_not false h = absurd (cc h)

pub must_exist-go :
    {S : Type 0} (m : M S Bool) (text : String) (s s' : S)
    → must_exist m text s ≡ (go tt, s')
    → m s ≡ (ok true, s')
unfolding must_exist
must_exist-go m text s s' h =
    let (there, s1, p, q) = bind-go (check m) (λ x. refuse_if (not x) _) s s' tt h in
    let (e, k) = refuse_if-go (not there) _ s1 s' q in
    let p' = check-go m s s1 there p in let e' = true_of_not there e in cc

module _ (db : Store) (law : IsStore db) where
  open db use {State}

  -- Who gets past the test is a superuser.
  pub must_be_super-go :
      (me : Bytes) (text : String) (s s' : State)
      → must_be_super db me text s ≡ (go tt, s')
      → ((f : ℕ) × (flags_of db law me s ≡ some f) × (is_super f ≡ true)) × Kept db law s s'
  unfolding must_be_super
  must_be_super-go me text s s' h =
      let (f, s1, p, q) =
        bind-go (check (get_flags db me)) (λ f. refuse_if (not (is_super f)) _) s s' tt h in
      let (e, k) = refuse_if-go (not (is_super f)) _ s1 s' q in
      let (c, kept) = get_flags-eq_ok db law me f s s1 (check-go (get_flags db me) s s1 f p) in
      ((f, c, true_of_not (is_super f) e), subst (Kept db law s) k kept)
