-- ===== src/Bom/Store.antt =====
-- The database that bom/ works on: the tables of bom/db.cc, and the calls of Berkeley DB, a library
-- that is not part of the repository, as a record of functions. A state is what one transaction
-- sees. A key or a value is the bytes of a DBT.
pub mod Laws
pub mod Monad
pub mod Effects
pub mod Fuel
pub mod Memory
use d_barter.Base.{ℕ, Bool, true, false, List, [], ◌∷◌, ◌++◌}
use d_barter.Base.Bytes.{Bytes}

-- `db_file_t`
pub data Table : Type 0 where
  config acct_public acct_secret note_challenge note_issuer acct_note acct_modulus note_value :
      Table
  acct_value denom_type denom_promise denom_issuer issuer_denom acct_flags event_type : Table
  event_data event_acct acct_event tid_acct tid_command acct_promise : Table
  offer_index offer_bid_value offer_ask_value offer_issuer acct_offer : Table

-- `db_info`: the tables that are opened with DB_DUP.
abbrev pub is_dup : Table → Bool
is_dup acct_note = true
is_dup issuer_denom = true
is_dup acct_event = true
is_dup offer_index = true
is_dup acct_offer = true
is_dup t = false

-- A result that is not 0: DB_NOTFOUND, -1, or an errno. `out_of_fuel` is no result of the program: a
-- loop over a cursor has used up its fuel.
pub data Error : Type 0 where
  not_found : Error
  minus_one : Error
  errno : ℕ → Error
  out_of_fuel : Error

pub data Result {ℓ} (A : Type ℓ) : Type ℓ where
  ok : A → Result A
  err : Error → Result A

-- What a function does to the state of the transaction. What it has written before an error stays
-- written; the caller aborts.
abbrev pub M : Type 0 → Type 0 → Type 0
M S A = S → Result A × S

module _ {S A : Type 0} where
  abbrev pub pure : A → M S A
  pure a s = (ok a, s)

  abbrev pub fail : Error → M S A
  fail e s = (err e, s)

infixl 5 ◌>>=◌ ◌>>◌
abbrev pub ◌>>=◌ : {S A B : Type 0} → M S A → (A → M S B) → M S B
◌>>=◌ m f s = let (r, s') = m s in elim r [ ok a ↦ f a s' | err e ↦ (err e, s') ]

abbrev pub ◌>>◌ : {S A B : Type 0} → M S A → M S B → M S B
m >> k = m >>= λ _. k

-- Where a cursor is to go.
pub data Position : Type 0 where
  set_key set_range get_both next_record next_dup last_record : Position

-- Where a cursor puts a duplicate.
pub data Place : Type 0 where
  key_first key_last : Place

-- The calls of Berkeley DB; `get_pair` is `get` with DB_GET_BOTH. A record number stands for the key of DB_APPEND.
pub record Store : Type 1 where
  pub State : Type 0
  pub Cursor : Type 0
  pub get : Table → Bytes → M State Bytes
  pub get_pair : Table → Bytes → Bytes → M State Bytes
  pub put : Table → Bytes → Bytes → M State (Unit {0})
  pub append : Table → Bytes → M State ℕ
  pub del : Table → Bytes → M State (Unit {0})
  pub cursor : Table → M State Cursor
  pub c_get : Cursor → Position → Bytes → Bytes → M State (Bytes × Bytes)
  pub c_put : Cursor → Place → Bytes → Bytes → M State (Unit {0})
  pub c_del : Cursor → M State (Unit {0})
  pub c_close : Cursor → M State (Unit {0})

-- `if (result == DB_NOTFOUND) return 0; if (result) return result; return 0;`
abbrev pub or_missing : {S : Type 0} → M S (Unit {0}) → M S (Unit {0})
or_missing m s =
    let (r, s') = m s in
    elim r [
      | ok _ ↦ (ok tt, s')
      | err e ↦ elim e [ not_found ↦ (ok tt, s') | other ↦ (err other, s') ]
    ]

-- A read that goes on in one way if the record is there, and in another on DB_NOTFOUND.
abbrev pub on_found : {S A B : Type 0} → M S A → (A → M S B) → M S B → M S B
on_found m f missing s =
    let (r, s') = m s in
    elim r [ ok a ↦ f a s' | err e ↦ elim e [ not_found ↦ missing s' | other ↦ (err other, s') ] ]

-- Whether a record is there: `*exists`.
abbrev pub is_there : {S A : Type 0} → M S A → M S Bool
is_there m = on_found m (λ _. pure true) (pure false)

-- `if (result) { undo; return result; }`, where the result of the undoing is dropped.
abbrev pub on_error : {S A : Type 0} → M S A → M S (Unit {0}) → M S A
on_error m undo s = let (r, s') = m s in elim r [ ok a ↦ (ok a, s') | err e ↦ (err e, (undo s').1) ]

-- A call whose result is dropped.
abbrev pub ignore : {S : Type 0} → M S (Unit {0}) → M S (Unit {0})
ignore m s = (ok tt, (m s).1)
