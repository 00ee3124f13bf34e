-- ===== src/Bom/Holdings.antt =====
-- What an account holds (bom/acct.cc): the lists of its notes, events, denominations and offers, that
-- are the duplicates of its identifier in the tables of the index, and the end of an account.
use d_barter.Base.{ℕ, zero, suc, List, [], ◌∷◌}
use d_barter.Base.Bytes.{Bytes}
use d_barter.Bom.Store.{
  Table, acct_note, acct_event, issuer_denom, acct_offer, acct_modulus, not_found, out_of_fuel, ok,
  err, M, pure, ◌>>=◌, ◌>>◌, Store, next_dup, next_record, ignore,
}
use d_barter.Bom.Text.{string_to_dbt, dbt_to_string}
use d_barter.Bom.Event.{event_number, event_new_acct_destroy}
use d_barter.Bom.Offer
use d_barter.Bom.Note
use d_barter.Bom.Acct
use d_barter.Dmath.Quantity.{Quantity}

module _ (db : Store) where
  open db use {State, Cursor, cursor, c_get, c_close}

  -- The loop with DB_NEXT_DUP, which puts the object of each further record in front of the list.
  pub more_entries : {A : Type 0} → ℕ → Cursor → (Bytes → A) → Bytes → List A → M State (List A)
  more_entries zero c object k found s = (err out_of_fuel, s)
  more_entries (suc fuel) c object k found s =
      let (r, s') = c_get c next_dup k [] s in
      elim r [
        | ok (k', v) ↦ more_entries fuel c object k' (object v ∷ found) s'
        | err e ↦ elim e [
          | not_found ↦ (c_close c >> pure found) s'
          | other ↦ (err other, (c_close c s').1)
        ]
      ]

  -- A list of an account: `missing` closes the cursor of an account that has no record.
  pub entries :
      {A : Type 0}
      → Table
      → ℕ
      → (Bytes → A)
      → (Cursor → M State (Unit {0}))
      → Bytes
      → M State (List A)
  entries t fuel object missing id = do
    c ← cursor t
    Offer.at_key db c (string_to_dbt id) (λ kv. more_entries fuel c object kv.0 (object kv.1 ∷ []))
        (missing c >> pure [])

  pub get_note_list : ℕ → Bytes → M State (List Bytes)
  get_note_list fuel id = entries acct_note fuel dbt_to_string c_close id

  pub get_event_list : ℕ → Bytes → M State (List ℕ)
  get_event_list fuel id = entries acct_event fuel event_number c_close id

  pub get_denom_list : ℕ → Bytes → M State (List Bytes)
  get_denom_list fuel id = entries issuer_denom fuel dbt_to_string c_close id

  pub get_offer_list : ℕ → Bytes → M State (List Bytes)
  get_offer_list fuel id = entries acct_offer fuel dbt_to_string (λ c. ignore (c_close c)) id

  -- The loop of the function `get_acct_list` over all accounts, which never closes the cursor.
  pub all_accts : ℕ → Cursor → List Bytes → M State (List Bytes)
  all_accts zero c found s = (err out_of_fuel, s)
  all_accts (suc fuel) c found s =
      let (r, s') = c_get c next_record [] [] s in
      elim r [
        | ok (k, v) ↦ all_accts fuel c (dbt_to_string k ∷ found) s'
        | err e ↦ elim e [ not_found ↦ (ok found, s') | other ↦ (err other, s') ]
      ]

  pub get_acct_list : ℕ → M State (List Bytes)
  get_acct_list fuel = do c ← cursor acct_modulus; all_accts fuel c []

  module _ (n : Quantity) where
    -- The loops that destroy every note or offer of a list, whose objects have no issuer loaded. The
    -- second amount of fuel is for the loops of the objects.
    pub destroy_notes : ℕ → List Bytes → M State (Unit {0})
    destroy_notes fuel [] = pure tt
    destroy_notes fuel (note ∷ nl) = Note.destroy db n fuel note [] >> destroy_notes fuel nl

    pub del_note_list : ℕ → Bytes → M State (Unit {0})
    del_note_list fuel id = do nl ← get_note_list fuel id; destroy_notes fuel nl

    pub destroy_offers : ℕ → List Bytes → M State (Unit {0})
    destroy_offers fuel [] = pure tt
    destroy_offers fuel (offer ∷ ol) = Offer.destroy db n fuel offer [] >> destroy_offers fuel ol

    pub del_offer_list : ℕ → Bytes → M State (Unit {0})
    del_offer_list fuel id = do ol ← get_offer_list fuel id; destroy_offers fuel ol

    pub destroy : ℕ → Bytes → M State (Unit {0})
    destroy fuel id = do
      event_new_acct_destroy db id
      del_note_list fuel id
      Acct.del_portfolio db n fuel id
      Acct.del_public db id
      Acct.del_secret db id
      Acct.del_modulus db id
      Acct.del_flags db id
