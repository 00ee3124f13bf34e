-- ===== src/Bom/Denom.antt =====
-- Denominations (bom/denom.cc): a promise and an issuer, with the index from issuers to
-- denominations.
pub mod Exists
use d_barter.Base.{ℕ, zero, suc, Bool, true, if◌then◌else◌, List, [], ◌∷◌}
use d_barter.Base.Bytes.{Bytes, strstr}
use d_barter.Bom.Store.{
  denom_promise, denom_issuer, issuer_denom, not_found, out_of_fuel, ok, err, M, pure, ◌>>=◌, ◌>>◌,
  Store, get_both, next_record, key_first, or_missing, on_found, is_there, on_error,
}
use d_barter.Bom.Text.{string_to_dbt, dbt_to_string}
use d_barter.Bom.Event.{event_new_denom_destroy}

module _ (db : Store) where
  open db use {State, Cursor, get, put, del, cursor, c_get, c_put, c_del, c_close}

  unfoldable pub exists : Bytes → M State Bool
  exists id = is_there (get denom_issuer (string_to_dbt id))

  pub get_promise : Bytes → M State Bytes
  get_promise id = do v ← get denom_promise (string_to_dbt id); pure (dbt_to_string v)

  pub set_promise : Bytes → Bytes → M State (Unit {0})
  set_promise id promise = put denom_promise (string_to_dbt id) (string_to_dbt promise)

  pub del_promise : Bytes → M State (Unit {0})
  del_promise id = or_missing (del denom_promise (string_to_dbt id))

  unfoldable pub get_issuer : Bytes → M State Bytes
  get_issuer id = do v ← get denom_issuer (string_to_dbt id); pure (dbt_to_string v)

  pub set_issuer : Bytes → Bytes → M State (Unit {0})
  set_issuer id issuer = do
    put denom_issuer (string_to_dbt id) (string_to_dbt issuer)
    c ← cursor issuer_denom
    let k = string_to_dbt issuer
    let v = string_to_dbt id
    there ← on_error (is_there (c_get c get_both k v)) (c_close c)
    if there then c_close c else (on_error (c_put c key_first k v) (c_close c) >> c_close c)

  -- The second half of `del_issuer`: the entry of the index.
  pub del_index : Bytes → Bytes → M State (Unit {0})
  del_index issuer key = do
    c ← cursor issuer_denom
    there ← on_error (is_there (c_get c get_both issuer key)) (c_close c)
    if there then (on_error (c_del c) (c_close c) >> c_close c) else c_close c

  pub del_issuer : Bytes → M State (Unit {0})
  del_issuer id =
      on_found (get denom_issuer (string_to_dbt id))
        (λ issuer. del denom_issuer (string_to_dbt id) >> del_index issuer (string_to_dbt id))
        (pure tt)

  -- `destroy`, with the issuer as far as the object has it loaded.
  pub destroy : Bytes → List Bytes → M State (Unit {0})
  destroy id issuer = do event_new_denom_destroy db id issuer; del_issuer id; del_promise id

  -- The loop over all records of a table: the keys of those whose value is wanted, the last in front.
  pub list_denoms : ℕ → Cursor → (Bytes → Bool) → List Bytes → M State (List Bytes)
  list_denoms zero c wanted found s = (err out_of_fuel, s)
  list_denoms (suc fuel) c wanted found s =
      let (r, s') = c_get c next_record [] [] s in
      elim r [
        | ok (k, v) ↦
            list_denoms fuel c wanted (if wanted v then dbt_to_string k ∷ found else found) s'
        | err e ↦ elim e [
          | not_found ↦ (c_close c >> pure found) s'
          | other ↦ (err other, (c_close c s').1)
        ]
      ]

  pub get_denom_list : ℕ → M State (List Bytes)
  get_denom_list fuel = do c ← cursor denom_issuer; list_denoms fuel c (λ v. true) []

  -- The denominations with the pattern in their promise.
  pub search_denom_list : ℕ → Bytes → M State (List Bytes)
  search_denom_list fuel pattern = do
    c ← cursor denom_promise
    list_denoms fuel c (λ v. strstr (dbt_to_string v) pattern) []
