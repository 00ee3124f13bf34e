-- ===== src/Bom/Note.antt =====
-- Notes (bom/note.cc): a portfolio of values that stands under the name of the note, with its issuer
-- and the challenge that protects it.
pub mod Loops
mod Tests
use d_barter.Base.{ℕ, zero, suc, Bool, false, not, Option, none, some, List, [], ◌∷◌, if◌then◌else◌}
use d_barter.Base.Bytes.{Bytes, str_eq}
use d_barter.Bom.Store.{
  note_issuer, note_challenge, note_value, acct_note, out_of_fuel, M, pure, fail, ◌>>=◌, ◌>>◌,
  Store, set_range, get_both, next_record, or_missing, on_found, is_there, on_error,
}
use d_barter.Bom.Text.{string_to_dbt, dbt_to_string, behind_nul, pair_key}
use d_barter.Bom.Value.{Value, dbt_to_bq, bq_to_dbt}
use d_barter.Bom.Event.{event_new_note_destroy}
use d_barter.Bom.Acct
use d_barter.Bom.Portfolio
use d_barter.Dmath.Integer.{Integer}
use d_barter.Dmath.Rsa.{rsa_crypt}
use d_barter.Dmath.Quantity.{Quantity}

module _ (db : Store) where
  open db use {State, Cursor, get, get_pair, put, del, cursor, c_get, c_del, c_close}

  pub exists : Bytes → M State Bool
  exists id = is_there (get note_issuer (string_to_dbt id))

  pub get_issuer : Bytes → M State Bytes
  get_issuer id = do v ← get note_issuer (string_to_dbt id); pure (dbt_to_string v)

  -- The index from issuers to notes is read by `get` with DB_GET_BOTH, and written by `put`.
  pub set_issuer : Bytes → Bytes → M State (Unit {0})
  set_issuer id issuer = do
    put note_issuer (string_to_dbt id) (string_to_dbt issuer)
    there ← is_there (get_pair acct_note (string_to_dbt issuer) (string_to_dbt id))
    if there then pure tt else put acct_note (string_to_dbt issuer) (string_to_dbt id)

  -- The second half of `del_issuer`: the entry of the index.
  pub del_issuer_index : Bytes → Bytes → M State (Unit {0})
  del_issuer_index issuer key = do
    c ← cursor acct_note
    there ← on_error (is_there (c_get c get_both issuer key)) (c_close c)
    if there then (on_error (c_del c) (c_close c) >> c_close c) else c_close c

  pub del_issuer : Bytes → M State (Unit {0})
  del_issuer id =
      on_found (get note_issuer (string_to_dbt id))
        (λ issuer. del note_issuer (string_to_dbt id) >> del_issuer_index issuer (string_to_dbt id))
        (pure tt)

  module _ (z : Integer) where
    pub get_challenge : Bytes → z.Z → M State z.Z
    get_challenge id old = do
      v ← get note_challenge (string_to_dbt id)
      elim (z.of_string (dbt_to_string v)) [ none ↦ pure old | some c ↦ pure c ]

    pub set_challenge : Bytes → z.Z → M State (Unit {0})
    set_challenge id c = put note_challenge (string_to_dbt id) (string_to_dbt (z.to_string c))

    -- `create_challenge`: `none` is `*success == 0`; `rsa_challenge` is a parameter.
    pub create_challenge : (z.Z → z.Z) → Bytes → M State (Option z.Z)
    create_challenge rsa_challenge id = do
      issuer ← get_issuer id
      km ← Acct.get_modulus db z issuer
      if not (z.is_pos km) then pure none else pure (some (rsa_challenge km))

    -- `verify_reponse`; a run of `rsa_crypt` that does not end is `out_of_fuel`.
    pub verify_reponse : Bytes → z.Z → z.Z → M State Bool
    verify_reponse id c0 r = do
      issuer ← get_issuer id
      km ← Acct.get_modulus db z issuer
      kp ← Acct.get_public db z issuer
      if not (z.is_pos km)
          then pure false
          else elim (rsa_crypt z.powm (z.magnitude r) kp (z.magnitude km)) [
            | none ↦ fail out_of_fuel
            | some c1 ↦ pure (z.eqb c0 (z.of_ℕ c1))
          ]

  pub del_challenge : Bytes → M State (Unit {0})
  del_challenge id = or_missing (del note_challenge (string_to_dbt id))

  module _ (n : Quantity) where
    -- A missing record is the amount 0; a text that is no number leaves the amount alone.
    pub get_value : Bytes → Value n.Q → M State (Value n.Q)
    get_value id val =
        on_found (get note_value (pair_key id val.denom))
          (λ v. pure (record val { quant = dbt_to_bq n v val.quant }))
          (pure (record val { quant = n.zero }))

    pub set_value : Bytes → Value n.Q → M State (Unit {0})
    set_value id val = put note_value (pair_key id val.denom) (bq_to_dbt n val.quant)

    pub del_value : Bytes → Value n.Q → M State (Unit {0})
    del_value id val = or_missing (del note_value (pair_key id val.denom))

    pub set_portfolio : Bytes → List (Value n.Q) → M State (Unit {0})
    set_portfolio id [] = pure tt
    set_portfolio id (v ∷ vl) = set_value id v >> set_portfolio id vl

    -- The loops over the values of a note.
    pub get_value_first : Cursor → Bytes → Value n.Q → M State (Option (Value n.Q))
    get_value_first c id old = Portfolio.get_value_first db false note_value n c id old

    pub get_value_next : Cursor → Bytes → Value n.Q → M State (Option (Value n.Q))
    get_value_next c id old = Portfolio.get_value_next db false note_value n c id old

    pub get_portfolio : ℕ → Bytes → M State (List (Value n.Q))
    get_portfolio fuel id = Portfolio.get_portfolio db false note_value n fuel id

    pub del_portfolio : ℕ → Bytes → M State (Unit {0})
    del_portfolio fuel id = Portfolio.del_portfolio db false note_value n fuel id

    -- `destroy`, with the issuer as far as the object has it loaded.
    pub destroy : ℕ → Bytes → List Bytes → M State (Unit {0})
    destroy fuel id issuer = do
      event_new_note_destroy db id issuer
      del_issuer id
      del_challenge id
      del_portfolio fuel id
