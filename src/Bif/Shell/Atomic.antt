-- ===== src/Bif/Shell/Atomic.antt =====
-- A command outside a transaction of its client is atomic (bif/shell.cc): it has the effect of its body
-- on the committed data, or none.
use d_barter.Base.{
  ℕ, zero, suc, ◌≡◌, refl, sym, ap, ◌∙◌, Bool, true, false, Option, none, inl, inr, Bool-cases,
  if◌then◌else◌,
}
use d_barter.Bom.Store.{Error, not_found, minus_one, errno, out_of_fuel, Result, ok, err}
use d_barter.Bif.Shell.{
  db_error, is_again, Stop, refuse, leave, failed, null_pointer, Step, go, stop, BodyOf, Server,
  Ended, done, broken,
}
use d_barter.Bif.Shell.Transact.{
  Outcome, failed_alone, committed, stopped_alone, ended_alone, began, alone,
}
use d_barter.Bif.Shell.Laws.{IsServer}

abbrev pub is_done : {A : Type 0} → Ended A → Bool
is_done (done a) = true
is_done e = false

module _ {S : Type 0} (sv : Server S) (law : IsServer sv) {b : Bool} {A : Type 0} where
  open sv use {World}
  open law use {data_of}

  -- The specification: a body that is run on the committed data `d` takes effect as a whole, or
  -- nothing is changed.
  pub data Atomic (body : BodyOf b S A) (d : S) : Outcome sv A → Type 0 where
    took_effect :
        {a : A} {p : Option S} {w : World}
        → (body d).0 ≡ go a
        → data_of w ≡ (body d).1
        → Atomic body d (done a, (p, w))
    unchanged :
        {e : Ended A} {p : Option S} {w : World}
        → is_done e ≡ false
        → data_of w ≡ d
        → Atomic body d (e, (p, w))

  module _ (body : BodyOf b S A) (d : S) (again : World → Outcome sv A)
      (start_over : (w : World) → data_of w ≡ d → Atomic body d (again w)) where
    other-Atomic :
        (e : Error) (s : S) (w : World)
        → data_of w ≡ d
        → Atomic body d (
            if is_again e
            then again (sv.txn_abort s w)
            else (broken (db_error e), (none, sv.txn_abort s w)))
    other-Atomic e s w h = elim (Bool-cases (is_again e)) [
      | inl same ↦ rw same (start_over _ (law.abort_keeps s w ∙ h))
      | inr other ↦ rw other (unchanged refl (law.abort_keeps s w ∙ h))
    ]

    failed-Atomic :
        (e : Error) (s : S) (w : World)
        → data_of w ≡ d
        → Atomic body d (failed_alone sv again e s w)
    unfolding failed_alone
    failed-Atomic not_found s w h = other-Atomic not_found s w h
    failed-Atomic minus_one s w h = other-Atomic minus_one s w h
    failed-Atomic (errno i) s w h = other-Atomic (errno i) s w h
    failed-Atomic out_of_fuel s w h = unchanged refl h

    stopped-Atomic :
        (r : Stop b) (s : S) (w : World)
        → data_of w ≡ d
        → Atomic body d (stopped_alone sv again r s w)
    unfolding stopped_alone
    stopped-Atomic (refuse r) s w h = unchanged refl (law.abort_keeps s w ∙ h)
    stopped-Atomic (leave _ r) s w h = unchanged refl h
    stopped-Atomic (failed e) s w h = failed-Atomic e s w h
    stopped-Atomic null_pointer s w h = unchanged refl h

    committed-Atomic :
        (a : A) (s : S) (r : Result (Unit {0}) × World)
        → (body d).0 ≡ go a
        → (r.0 ≡ ok tt → data_of r.1 ≡ (body d).1)
        → ((e : Error) → r.0 ≡ err e → data_of r.1 ≡ d)
        → Atomic body d (committed sv again a s r)
    unfolding committed
    committed-Atomic a s (ok tt, w') e good bad = took_effect e (good refl)
    committed-Atomic a s (err x, w') e good bad = failed-Atomic x s w' (bad x refl)

    ended-Atomic :
        (r : Step b A × S) (w : World)
        → body d ≡ r
        → data_of w ≡ d
        → Atomic body d (ended_alone sv again r w)
    unfolding ended_alone
    ended-Atomic (go a, s) w e h =
        committed-Atomic a s (sv.txn_commit s w) (ap (λ r. r.0) e)
          (λ c. law.commit_ok s w c ∙ sym (ap (λ r. r.1) e)) (λ x c. law.commit_fails s w x c ∙ h)
    ended-Atomic (stop x, s) w e h = stopped-Atomic x s w h

    began-Atomic :
        (r : Result S × World)
        → ((s : S) → r.0 ≡ ok s → s ≡ d)
        → data_of r.1 ≡ d
        → Atomic body d (began sv (ended_alone sv again) body r)
    unfolding began
    began-Atomic (ok s, w) e h = ended-Atomic (body s) w (ap body (sym (e s refl))) h
    began-Atomic (err x, w) e h = unchanged refl h

  -- A body in a transaction of its own, however often it starts over, takes effect as a whole on the
  -- committed data, or leaves them as they were: where it is done, they are what the body makes of
  -- them, and where it is not, nothing has changed.
  pub alone-Atomic :
      (fuel : ℕ) (body : BodyOf b S A) (d : S) (w : World)
      → data_of w ≡ d
      → Atomic body d (alone sv fuel body w)
  unfolding alone
  alone-Atomic zero body d w h = unchanged refl h
  alone-Atomic (suc fuel) body d w h =
      began-Atomic body d (alone sv fuel body) (λ w' h'. alone-Atomic fuel body d w' h')
        (sv.txn_begin w) (λ s e. law.begin_ok w s e ∙ h) (law.begin_keeps w ∙ h)
