-- ===== src/Bom/Acct.antt =====
-- Accounts (bom/acct.cc): their keys, flags and promise, their balances, and the two operations that
-- move money. An account is its identifier; `success` is the Boolean that an operation returns.
pub mod Balance
pub mod Licence
pub mod Debit
pub mod History
pub mod Records
pub mod Challenge
pub mod Flags
pub mod Exists
mod Tests
use d_barter.Base.{
  ℕ, ◌/◌, ◌%◌, Bool, true, false, not, Option, none, some, [], ◌∷◌, ◌==◌, if◌then◌else◌, List,
}
use d_barter.Base.Bytes.{Bytes, codes, str_eq}
use d_barter.Bom.Store.{
  acct_public, acct_secret, acct_modulus, acct_value, acct_flags, acct_promise, Error, not_found,
  minus_one, out_of_fuel, Result, ok, err, M, pure, fail, ◌>>=◌, ◌>>◌, Store, or_missing, on_found,
  is_there,
}
use d_barter.Bom.Text.{string_to_dbt, dbt_to_string, pair_key, flags_to_dbt, dbt_to_flags}
use d_barter.Bom.Value.{Value, dbt_to_bq, bq_to_dbt}
use d_barter.Bom.Denom
use d_barter.Bom.Portfolio
use d_barter.Bom.Event.{event_new_credit, event_new_debit}
use d_barter.Dmath.Integer.{Integer}
use d_barter.Dmath.Rsa.{rsa_crypt}
use d_barter.Dmath.Quantity.{Quantity}

-- ACCT_FLAG_SUPER, ACCT_FLAG_ISSUER and ACCT_FLAG_TXN of a set of flags.
abbrev pub is_super : ℕ → Bool
is_super flags = flags % 2 == 1

abbrev pub is_issuer : ℕ → Bool
is_issuer flags = (flags / 2) % 2 == 1

abbrev pub is_txn : ℕ → Bool
is_txn flags = (flags / 4) % 2 == 1

module _ (db : Store) where
  open db use {State, Cursor, get, put, del}

  unfoldable pub exists : Bytes → M State Bool
  exists id = is_there (get acct_public (string_to_dbt id))

  unfoldable pub get_flags : Bytes → M State ℕ
  get_flags id = do v ← get acct_flags (string_to_dbt id); pure (dbt_to_flags v)

  unfoldable pub set_flags : Bytes → ℕ → M State (Unit {0})
  set_flags id flags = put acct_flags (string_to_dbt id) (flags_to_dbt flags)

  pub del_flags : Bytes → M State (Unit {0})
  del_flags id = or_missing (del acct_flags (string_to_dbt id))

  pub get_promise : Bytes → M State Bytes
  get_promise id = do v ← get acct_promise (string_to_dbt id); pure (dbt_to_string v)

  pub set_promise : Bytes → Bytes → M State (Unit {0})
  set_promise id promise = put acct_promise (string_to_dbt id) (string_to_dbt promise)

  pub del_promise : Bytes → M State (Unit {0})
  del_promise id = or_missing (del acct_promise (string_to_dbt id))

  pub del_modulus : Bytes → M State (Unit {0})
  del_modulus id = or_missing (del acct_modulus (string_to_dbt id))

  pub del_public : Bytes → M State (Unit {0})
  del_public id = or_missing (del acct_public (string_to_dbt id))

  pub del_secret : Bytes → M State (Unit {0})
  del_secret id = or_missing (del acct_secret (string_to_dbt id))

  module _ (z : Integer) where
    -- `dbt_to_bz`
    unfoldable pub dbt_to_bz : Bytes → M State z.Z
    dbt_to_bz v = elim (z.of_string (dbt_to_string v)) [ none ↦ fail minus_one | some x ↦ pure x ]

    -- `bz_to_dbt`
    abbrev pub bz_to_dbt : z.Z → Bytes
    bz_to_dbt x = string_to_dbt (z.to_string x)

    unfoldable pub get_modulus : Bytes → M State z.Z
    get_modulus id = do v ← get acct_modulus (string_to_dbt id); dbt_to_bz v

    unfoldable pub set_modulus : Bytes → z.Z → M State (Unit {0})
    set_modulus id km = put acct_modulus (string_to_dbt id) (bz_to_dbt km)

    unfoldable pub get_public : Bytes → M State z.Z
    get_public id = do v ← get acct_public (string_to_dbt id); dbt_to_bz v

    unfoldable pub set_public : Bytes → z.Z → M State (Unit {0})
    set_public id kp = put acct_public (string_to_dbt id) (bz_to_dbt kp)

    pub get_secret : Bytes → M State z.Z
    get_secret id = do v ← get acct_secret (string_to_dbt id); dbt_to_bz v

    pub set_secret : Bytes → z.Z → M State (Unit {0})
    set_secret id kp = put acct_secret (string_to_dbt id) (bz_to_dbt kp)

    -- `create_challenge`: `none` is `*success == 0`; `rsa_challenge` of the modulus is a parameter.
    pub create_challenge : (z.Z → z.Z) → Bytes → M State (Option z.Z)
    create_challenge rsa_challenge id = do
      km ← get_modulus id
      if not (z.is_pos km) then pure none else pure (some (rsa_challenge km))

    -- `verify_reponse`; a run of `rsa_crypt` that does not end is `out_of_fuel`.
    unfoldable pub verify_reponse : Bytes → z.Z → z.Z → M State Bool
    verify_reponse id c0 r = do
      km ← get_modulus id
      kp ← get_public id
      if not (z.is_pos km)
          then pure false
          else elim (rsa_crypt z.powm (z.magnitude r) kp (z.magnitude km)) [
            | none ↦ fail out_of_fuel
            | some c1 ↦ pure (z.eqb c0 (z.of_ℕ c1))
          ]

  module _ (n : Quantity) where
    -- A missing record is the amount 0; a text that is no number leaves the amount alone.
    unfoldable pub get_value : Bytes → Value n.Q → M State (Value n.Q)
    get_value id val =
        on_found (get acct_value (pair_key id val.denom))
          (λ v. pure (record val { quant = dbt_to_bq n v val.quant }))
          (pure (record val { quant = n.zero }))

    unfoldable pub set_value : Bytes → Value n.Q → M State (Unit {0})
    set_value id val = put acct_value (pair_key id val.denom) (bq_to_dbt n val.quant)

    pub del_value : Bytes → Value n.Q → M State (Unit {0})
    del_value id val = or_missing (del acct_value (pair_key id val.denom))

    pub set_portfolio : Bytes → List (Value n.Q) → M State (Unit {0})
    set_portfolio id [] = pure tt
    set_portfolio id (v ∷ vl) = set_value id v >> set_portfolio id vl

    -- The loops over the values of an account.
    pub get_value_first : Cursor → Bytes → Value n.Q → M State (Option (Value n.Q))
    get_value_first c id old = Portfolio.get_value_first db true acct_value n c id old

    pub get_value_next : Cursor → Bytes → Value n.Q → M State (Option (Value n.Q))
    get_value_next c id old = Portfolio.get_value_next db true acct_value n c id old

    pub get_portfolio : ℕ → Bytes → M State (List (Value n.Q))
    get_portfolio fuel id = Portfolio.get_portfolio db true acct_value n fuel id

    pub del_portfolio : ℕ → Bytes → M State (Unit {0})
    del_portfolio fuel id = Portfolio.del_portfolio db true acct_value n fuel id

    -- A balance of 0 has no record.
    unfoldable pub write_balance : Bytes → Value n.Q → M State (Unit {0})
    write_balance id v0 = if n.is_zero v0.quant then del_value id v0 else set_value id v0

    unfoldable pub credit : Bytes → Value n.Q → M State Bool
    credit id v = do
      old ← get_value id (record { denom = v.denom; quant = n.zero })
      write_balance id (record old { quant = n.add old.quant v.quant })
      event_new_credit db n id v
      pure true

    -- Who may go below 0: a superuser, and the issuer of the denomination.
    pub may_overdraw : Bytes → Bytes → M State Bool
    may_overdraw id denom = do
      flags ← get_flags id
      if is_super flags
          then pure true
          else if not (is_issuer flags)
          then pure false
          else (do issuer ← Denom.get_issuer db denom; pure (str_eq issuer id))

    -- The end of both kinds of debit.
    pub record_debit : Bytes → Value n.Q → M State Bool
    record_debit id v = do event_new_debit db n id v; pure true

    pub debit : Bytes → Value n.Q → M State Bool
    debit id v = do
      old ← get_value id (record { denom = v.denom; quant = n.zero })
      let new = record old { quant = n.sub old.quant v.quant }
      if n.is_neg new.quant
          then (do
            allowed ← may_overdraw id v.denom
            if allowed then (set_value id new >> record_debit id v) else pure false)
          else (write_balance id new >> record_debit id v)

    pub debit_forced : Bytes → Value n.Q → M State (Unit {0})
    debit_forced id v = do
      old ← get_value id (record { denom = v.denom; quant = n.zero })
      write_balance id (record old { quant = n.sub old.quant v.quant })
      event_new_debit db n id v
      pure tt
