-- ===== src/Bom/Event/Types.antt =====
-- The type of an event is stored by its name (bom/event.cc).
use d_barter.Base.{ℕ, ◌≡◌, refl, sym, ◌∙◌, ap, subst, Option, none, some}
use d_barter.Base.Bytes.{Bytes, str_eq}
use d_barter.Bom.Store.{event_type, errno, ok, M, pure, fail, Store}
use d_barter.Bom.Store.Laws.{IsStore}
use d_barter.Bom.Store.Monad.{>>=-eq-ok}
use d_barter.Bom.Store.Effects.{stored}
use d_barter.Bom.Text.{string_to_dbt, dbt_to_string, int32_to_dbt}
use d_barter.Bom.Event.{
  EventType, credit, debit, acct_create, acct_destroy, note_create, note_destroy, denom_create,
  denom_destroy, offer_create, offer_destroy, event_sent, event_received, event_name, event_types,
  find_type, get_type, set_type,
}

-- No two types have the same name.
find_type-event_name :
    (t : EventType) → find_type event_types (dbt_to_string (string_to_dbt (event_name t))) ≡ some t
unfolding find_type event_types event_name dbt_to_string string_to_dbt str_eq
find_type-event_name credit = refl
find_type-event_name debit = refl
find_type-event_name acct_create = refl
find_type-event_name acct_destroy = refl
find_type-event_name note_create = refl
find_type-event_name note_destroy = refl
find_type-event_name denom_create = refl
find_type-event_name denom_destroy = refl
find_type-event_name offer_create = refl
find_type-event_name offer_destroy = refl
find_type-event_name event_sent = refl
find_type-event_name event_received = refl

module _ (db : Store) (law : IsStore db) where
  open db use {State}
  open law use {content}

  -- The type that is set for an event is the type that is got, if no call fails.
  pub get_type-set_type :
      (id : ℕ) (t u : EventType) (s s1 s2 : State)
      → set_type db id t s ≡ (ok tt, s1)
      → get_type db id s1 ≡ (ok u, s2)
      → u ≡ t
  unfolding set_type get_type
  get_type-set_type id t u s s1 s2 h k =
      let key = int32_to_dbt id in
      let text = string_to_dbt (event_name t) in
      let (c, _) = stored db law event_type key text s s1 refl h in
      let (v, p, q) = >>=-eq-ok (db.get event_type key) named s1 s2 u k in
      answer (db.get event_type key s1).1 (
        subst (λ x. named x (db.get event_type key s1).1 ≡ (ok u, s2))
          (some_text (sym (law.get_ok event_type key v s1 refl p) ∙ c)) q)
    where
      of_type : Option EventType → M State EventType
      of_type o = elim o [ none ↦ fail (errno 22) | some x ↦ pure x ]

      named : Bytes → M State EventType
      named v = of_type (find_type event_types (dbt_to_string v))

      some_text : {a b : Bytes} → some a ≡ some b → a ≡ b
      some_text p = cc

      answer : (s' : State) → named (string_to_dbt (event_name t)) s' ≡ (ok u, s2) → u ≡ t
      answer s' e = found (subst (λ o. of_type o s' ≡ (ok u, s2)) (find_type-event_name t) e)
        where
          found : pure {S = State} t s' ≡ (ok u, s2) → u ≡ t
          found e = cc (ap (λ r. r.0) e)
