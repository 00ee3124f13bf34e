-- ===== src/Bom/Event.antt =====
-- Events (bom/event.cc): a numbered record of its type, its text and the accounts that it concerns.
pub mod Frame
pub mod Types
pub mod Reads
pub mod Numbers
mod Tests
use d_barter.Base.{
  ℕ, zero, suc, Bool, true, false, Option, none, some, List, [], ◌∷◌, ◌++◌, ◌==◌, ltb,
  if◌then◌else◌,
}
use d_barter.Base.Bytes.{Bytes, codes, str_eq, strtoul}
use d_barter.Bom.Store.{
  Table, event_type, event_data, event_acct, acct_event, Error, not_found, errno, Result, ok, err,
  M, pure, fail, ◌>>=◌, ◌>>◌, Store, Place, key_last, or_missing, is_there, on_error,
}
use d_barter.Bom.Text.{string_to_dbt, dbt_to_string, int32_to_dbt, format_int}
use d_barter.Bom.Value.{Value, value_to_string}
use d_barter.Dmath.Quantity.{Quantity}

-- EVENT_TYPE_*, and `event_name`.
pub data EventType : Type 0 where
  credit debit acct_create acct_destroy note_create note_destroy : EventType
  denom_create denom_destroy offer_create offer_destroy event_sent event_received : EventType

pub event_name : EventType → Bytes
event_name credit = codes "credit"
event_name debit = codes "debit"
event_name acct_create = codes "acct_create"
event_name acct_destroy = codes "acct_destroy"
event_name note_create = codes "note_create"
event_name note_destroy = codes "note_destroy"
event_name denom_create = codes "denom_create"
event_name denom_destroy = codes "denom_destroy"
event_name offer_create = codes "offer_create"
event_name offer_destroy = codes "offer_destroy"
event_name event_sent = codes "event_sent"
event_name event_received = codes "event_received"

pub event_types : List EventType
event_types =
    credit ∷ debit ∷ acct_create ∷ acct_destroy ∷ note_create ∷ note_destroy ∷ denom_create
    ∷ denom_destroy ∷ offer_create ∷ offer_destroy ∷ event_sent ∷ event_received ∷ []

-- The loop of `get_type` over the names.
pub find_type : List EventType → Bytes → Option EventType
find_type [] name = none
find_type (t ∷ ts) name = if str_eq (event_name t) name then some t else find_type ts name

-- The accounts of an event, each with its NUL.
unfoldable pub acct_list_bytes : List Bytes → Bytes
acct_list_bytes [] = []
acct_list_bytes (u ∷ ul) = string_to_dbt u ++ acct_list_bytes ul

-- An event in the index of the events of an account: its number as `%d` writes it.
abbrev pub event_entry : ℕ → Bytes
event_entry id = string_to_dbt (format_int id)

pub event_to_string : ℕ → Bytes
event_to_string id = codes "event:" ++ format_int id

-- What `get_event_list` makes of an entry.
abbrev pub event_number : Bytes → ℕ
event_number v = strtoul (dbt_to_string v)

-- `strncmp` with a word, and the step behind it: the whole text, if it does not begin with the word.
behind_word : Bytes → Bytes → Bytes → Bytes
behind_word [] t s = t
behind_word (c ∷ word) [] s = s
behind_word (c ∷ word) (d ∷ t) s = let behind = behind_word word t s in if c == d then behind else s

-- `none` is the result -1.
pub string_to_event : Bytes → Option ℕ
unfolding behind_word
string_to_event s =
    let id = strtoul (behind_word (codes "event:") s s) in if ltb id 1 then none else some id

module _ (db : Store) where
  open db use {State, Cursor, get, put, append, del, cursor, c_put, c_close}

  unfoldable pub gen_id : M State ℕ
  gen_id = append event_type (string_to_dbt (codes "0"))

  pub exists : ℕ → M State Bool
  exists id = is_there (get event_type (int32_to_dbt id))

  pub get_type : ℕ → M State EventType
  unfolding find_type
  get_type id = do
    v ← get event_type (int32_to_dbt id)
    elim (find_type event_types (dbt_to_string v)) [ none ↦ fail (errno 22) | some t ↦ pure t ]

  unfoldable pub set_type : ℕ → EventType → M State (Unit {0})
  set_type id type = put event_type (int32_to_dbt id) (string_to_dbt (event_name type))

  pub del_type : ℕ → M State (Unit {0})
  del_type id = or_missing (del event_type (int32_to_dbt id))

  pub get_data : ℕ → M State Bytes
  get_data id = do v ← get event_data (int32_to_dbt id); pure (dbt_to_string v)

  unfoldable pub set_data : ℕ → Bytes → M State (Unit {0})
  set_data id text = put event_data (int32_to_dbt id) (string_to_dbt text)

  pub del_data : ℕ → M State (Unit {0})
  del_data id = or_missing (del event_data (int32_to_dbt id))

  -- The loop of `set_acct_list` over the cursor, which is closed also after an error.
  unfoldable pub put_accts : Cursor → ℕ → List Bytes → M State (Unit {0})
  put_accts c id [] = pure tt
  put_accts c id (u ∷ ul) =
      on_error (c_put c key_last (string_to_dbt u) (event_entry id)) (c_close c)
      >> put_accts c id ul

  unfoldable pub set_acct_list : ℕ → List Bytes → M State (Unit {0})
  set_acct_list id ul = do
    put event_acct (int32_to_dbt id) (acct_list_bytes ul)
    c ← cursor acct_event
    put_accts c id ul
    c_close c

  -- The calls that `event_new_credit` and `event_new_debit` make, in their order.
  unfoldable pub write_event : EventType → Bytes → List Bytes → M State ℕ
  write_event type text accts = do
    id ← gen_id
    set_data id text
    set_type id type
    set_acct_list id accts
    pure id

  -- The same in the order of the other functions `event_new_*`.
  pub write_event_accts_first : EventType → Bytes → List Bytes → M State ℕ
  write_event_accts_first type text accts = do
    id ← gen_id
    set_acct_list id accts
    set_data id text
    set_type id type
    pure id

  pub event_new_note_create : Bytes → List Bytes → M State ℕ
  event_new_note_create note issuer =
      write_event_accts_first note_create (codes "note " ++ note) issuer

  pub event_new_note_destroy : Bytes → List Bytes → M State ℕ
  event_new_note_destroy note issuer =
      write_event_accts_first note_destroy (codes "note " ++ note) issuer

  pub event_new_acct_create : Bytes → M State ℕ
  event_new_acct_create acct =
      write_event_accts_first acct_create (codes "acct " ++ acct) (acct ∷ [])

  pub event_new_acct_destroy : Bytes → M State ℕ
  event_new_acct_destroy acct =
      write_event_accts_first acct_destroy (codes "acct " ++ acct) (acct ∷ [])

  pub event_new_denom_create : Bytes → List Bytes → M State ℕ
  event_new_denom_create denom issuer =
      write_event_accts_first denom_create (codes "denom " ++ denom) issuer

  pub event_new_denom_destroy : Bytes → List Bytes → M State ℕ
  event_new_denom_destroy denom issuer =
      write_event_accts_first denom_destroy (codes "denom " ++ denom) issuer

  pub event_new_offer_create : Bytes → List Bytes → M State ℕ
  event_new_offer_create offer issuer =
      write_event_accts_first offer_create (codes "offer " ++ offer) issuer

  pub event_new_offer_destroy : Bytes → List Bytes → M State ℕ
  event_new_offer_destroy offer issuer =
      write_event_accts_first offer_destroy (codes "offer " ++ offer) issuer

  module _ (n : Quantity) where
    -- `sprintf_alloc(&data, "acct %s\nvalue %s", acct.id, svalue)`
    pub value_text : Bytes → Value n.Q → Bytes
    value_text acct v = codes "acct " ++ (acct ++ (codes "\nvalue " ++ value_to_string n v))

    unfoldable pub event_new_credit : Bytes → Value n.Q → M State ℕ
    event_new_credit acct v = write_event credit (value_text acct v) (acct ∷ [])

    unfoldable pub event_new_debit : Bytes → Value n.Q → M State ℕ
    event_new_debit acct v = write_event debit (value_text acct v) (acct ∷ [])
