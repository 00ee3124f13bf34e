-- ===== src/Bom/Event/Frame.antt =====
-- Writing an event (bom/event.cc) touches the four tables of events and no other.
use d_barter.Base.{ℕ, ◌≡◌, ◌≢◌, refl, ◌∙◌, inl, Bool, true, false, List, [], ◌∷◌}
use d_barter.Base.Bytes.{Bytes}
use d_barter.Bom.Store.{
  Table, event_type, event_data, event_acct, acct_event, Result, ok, err, M, ◌>>=◌, pure, Store,
  Place, key_last, on_error,
}
use d_barter.Bom.Store.Laws.{IsStore}
use d_barter.Bom.Value.{Value}
use d_barter.Bom.Event.{
  EventType, credit, debit, value_text, event_new_credit, event_new_debit, gen_id, set_type,
  set_data, put_accts, set_acct_list, write_event, write_event_accts_first,
}
use d_barter.Dmath.Quantity.{Quantity}

abbrev pub is_event : Table → Bool
is_event event_type = true
is_event event_data = true
is_event event_acct = true
is_event acct_event = true
is_event t = false

ne_event : (t u : Table) → is_event t ≡ true → is_event u ≡ false → u ≢ t
ne_event t u e f p = cc

module _ (db : Store) (law : IsStore db) where
  open db use {State, Cursor}
  open law use {content}

  -- The second state differs from the first in the tables of events only.
  abbrev pub Frame : State → State → Type 0
  Frame s s' = (t : Table) (k : Bytes) → is_event t ≡ false → content t k s' ≡ content t k s

  -- Every run of the action does so.
  pub record Keeps {A : Type 0} (m : M State A) : Type 0 where
    pub frame : (s : State) → Frame s (m s).1

  pub pure-Keeps : {A : Type 0} (a : A) → Keeps (pure a)
  pure-Keeps a = record { frame = λ s t k e. refl }

  -- A sequence keeps the frame if its parts do; the second may rest on how the first ended.
  pub bind-Keeps :
      {A B : Type 0} (m : M State A) (f : A → M State B)
      → Keeps m
      → ((s : State) (a : A) → (m s).0 ≡ ok a → Keeps (f a))
      → Keeps (m >>= f)
  bind-Keeps {A} {B} m f h g = record { frame = λ s. go s (m s).0 refl (m s).1 (h.frame s) }
    where
      go :
          (s : State) (r : Result A)
          → (m s).0 ≡ r
          → (s' : State) → Frame s s'
          → Frame s
              (let x : Result B × State = elim r [ ok a ↦ f a s' | err e ↦ (err e, s') ] in x.1)
      go s (ok a) p s' k t j e = (g s a p).frame s' t j e ∙ k t j e
      go s (err x) p s' k t j e = k t j e

  put-Keeps : (u : Table) (k v : Bytes) → is_event u ≡ true → Keeps (db.put u k v)
  put-Keeps u k v p = record {
    frame = λ s t j e. law.put_others u k v s t j (inl (ne_event u t p e));
  }

  append-Keeps : (u : Table) (v : Bytes) → is_event u ≡ true → Keeps (db.append u v)
  append-Keeps u v p = record { frame = λ s t j e. law.append_others u v s t j (ne_event u t p e) }

  cursor-Keeps : (u : Table) → Keeps (db.cursor u)
  cursor-Keeps u = record { frame = λ s t j e. law.cursor_keeps u s t j }

  c_close-Keeps : (c : Cursor) → Keeps (db.c_close c)
  c_close-Keeps c = record { frame = λ s t j e. law.c_close_keeps c s t j }

  on_error-Keeps :
      {A : Type 0} (m : M State A) (undo : M State (Unit {0}))
      → Keeps m
      → Keeps undo
      → Keeps (on_error m undo)
  on_error-Keeps {A} m undo h k = record { frame = λ s. go (m s).0 (m s).1 (h.frame s) }
    where
      go :
          (r : Result A) (s' : State) {s : State}
          → Frame s s'
          → Frame s (
              let x : Result A × State = elim r [
                | ok a ↦ (ok a, s')
                | err e ↦ (err e, (undo s').1)
              ] in
              x.1)
      go (ok a) s' f t j q = f t j q
      go (err e) s' f t j q = k.frame s' t j q ∙ f t j q

  c_put-Keeps :
      (c : Cursor) (p : Place) (k v : Bytes)
      → law.cursor_table c ≡ acct_event
      → Keeps (db.c_put c p k v)
  c_put-Keeps c p k v q = record {
    frame = λ s t j e. law.c_put_others c p k v s t j (λ r. ne_event acct_event t refl e (r ∙ q));
  }

  put_accts-Keeps :
      (c : Cursor) (id : ℕ) (ul : List Bytes)
      → law.cursor_table c ≡ acct_event
      → Keeps (put_accts db c id ul)
  unfolding put_accts
  put_accts-Keeps c id [] p = pure-Keeps tt
  put_accts-Keeps c id (u ∷ ul) p =
      bind-Keeps (on_error (db.c_put c key_last _ _) (db.c_close c)) _
        (on_error-Keeps (db.c_put c key_last _ _) (db.c_close c) (c_put-Keeps c key_last _ _ p)
          (c_close-Keeps c))
        λ _ _ _. put_accts-Keeps c id ul p

  pub set_acct_list-Keeps : (id : ℕ) (ul : List Bytes) → Keeps (set_acct_list db id ul)
  unfolding set_acct_list
  set_acct_list-Keeps id ul = bind-Keeps _ _ (put-Keeps event_acct _ _ refl) λ s a p.
      bind-Keeps _ _ (cursor-Keeps acct_event) λ s' c q.
        bind-Keeps _ _ (put_accts-Keeps c id ul (law.cursor_ok acct_event s' c q))
          λ _ _ _. c_close-Keeps c

  pub gen_id-Keeps : Keeps (gen_id db)
  unfolding gen_id
  gen_id-Keeps = append-Keeps event_type _ refl

  pub set_type-Keeps : (id : ℕ) (type : EventType) → Keeps (set_type db id type)
  unfolding set_type
  set_type-Keeps id type = put-Keeps event_type _ _ refl

  pub set_data-Keeps : (id : ℕ) (text : Bytes) → Keeps (set_data db id text)
  unfolding set_data
  set_data-Keeps id text = put-Keeps event_data _ _ refl

  pub write_event-Keeps :
      (type : EventType) (text : Bytes) (accts : List Bytes)
      → Keeps (write_event db type text accts)
  unfolding write_event
  write_event-Keeps type text accts = bind-Keeps (gen_id db) _ gen_id-Keeps λ _ id _.
      bind-Keeps (set_data db id text) _ (set_data-Keeps id text) λ _ _ _.
        bind-Keeps (set_type db id type) _ (set_type-Keeps id type) λ _ _ _.
          bind-Keeps (set_acct_list db id accts) _ (set_acct_list-Keeps id accts)
            λ _ _ _. pure-Keeps id

  pub write_event_accts_first-Keeps :
      (type : EventType) (text : Bytes) (accts : List Bytes)
      → Keeps (write_event_accts_first db type text accts)
  unfolding write_event_accts_first
  write_event_accts_first-Keeps type text accts = bind-Keeps (gen_id db) _ gen_id-Keeps λ _ id _.
      bind-Keeps (set_acct_list db id accts) _ (set_acct_list-Keeps id accts) λ _ _ _.
        bind-Keeps (set_data db id text) _ (set_data-Keeps id text) λ _ _ _.
          bind-Keeps (set_type db id type) _ (set_type-Keeps id type) λ _ _ _. pure-Keeps id

  module _ (n : Quantity) where
    pub event_new_credit-Keeps : (a : Bytes) (v : Value n.Q) → Keeps (event_new_credit db n a v)
    unfolding event_new_credit
    event_new_credit-Keeps a v = write_event-Keeps credit (value_text db n a v) (a ∷ [])

    pub event_new_debit-Keeps : (a : Bytes) (v : Value n.Q) → Keeps (event_new_debit db n a v)
    unfolding event_new_debit
    event_new_debit-Keeps a v = write_event-Keeps debit (value_text db n a v) (a ∷ [])
