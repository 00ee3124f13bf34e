-- ===== src/Bom/Offer.antt =====
-- Offers (bom/offer.cc): what is asked and what is bid for it, the issuer, and the index that finds the
-- best offer for a pair of denominations.
pub mod Loops
pub mod Values
mod Tests
use d_barter.Base.{
  ℕ, zero, suc, Bool, true, false, Option, none, some, if◌then◌else◌, List, [], ◌∷◌,
}
use d_barter.Base.Bytes.{Bytes, str_eq}
use d_barter.Bom.Store.{
  offer_index, offer_bid_value, offer_ask_value, offer_issuer, acct_offer, Error, not_found,
  minus_one, out_of_fuel, Result, ok, err, M, pure, fail, ◌>>=◌, ◌>>◌, Store, set_key, get_both,
  next_dup, key_first, or_missing, on_found, is_there, on_error, ignore,
}
use d_barter.Bom.Text.{string_to_dbt, dbt_to_string, behind_nul, pair_key}
use d_barter.Bom.Value.{Value, value_to_string, string_to_value}
use d_barter.Bom.Event.{event_new_offer_destroy}
use d_barter.Dmath.Bq.{string_to_bq, bq_to_string}
use d_barter.Dmath.Quantity.{Quantity, Ratio}

-- The best offer, with its ratio.
pub record Best (Q : Type 0) : Type 0 where
  pub offer : Bytes
  pub ratio : Q

module _ (db : Store) where
  open db use {State, Cursor, get, put, del, cursor, c_get, c_put, c_del, c_close}

  pub exists : Bytes → M State Bool
  exists id = is_there (get offer_issuer (string_to_dbt id))

  pub get_issuer : Bytes → M State Bytes
  get_issuer id = do v ← get offer_issuer (string_to_dbt id); pure (dbt_to_string v)

  pub set_issuer : Bytes → Bytes → M State (Unit {0})
  set_issuer id issuer = do
    put offer_issuer (string_to_dbt id) (string_to_dbt issuer)
    c ← cursor acct_offer
    let k = string_to_dbt issuer
    let v = string_to_dbt id
    there ← on_error (is_there (c_get c get_both k v)) (ignore (c_close c))
    if there
        then ignore (c_close c)
        else (on_error (c_put c key_first k v) (ignore (c_close c)) >> ignore (c_close c))

  -- The end of `del_issuer`.
  pub del_entry : Cursor → M State (Unit {0})
  del_entry c = on_error (c_del c) (c_close c) >> c_close c

  -- The second half of `del_issuer`: the entry of the index. The second test for DB_NOTFOUND in the
  -- source is never true, so that an error of `c_get` goes on to the removal.
  pub del_issuer_index : Bytes → Bytes → M State (Unit {0})
  del_issuer_index issuer key = do
    c ← cursor acct_offer
    λ s.
        let (r, s') = c_get c get_both issuer key s in
        elim r [
          | ok _ ↦ del_entry c s'
          | err e ↦ elim e [ not_found ↦ c_close c s' | other ↦ del_entry c s' ]
        ]

  pub del_issuer : Bytes → M State (Unit {0})
  del_issuer id =
      on_found (get offer_issuer (string_to_dbt id))
        (λ issuer.
          del offer_issuer (string_to_dbt id) >> del_issuer_index issuer (string_to_dbt id))
        (pure tt)

  -- The loop of `del_index` over the duplicates of a key, from the record at the cursor to the first
  -- that belongs to the offer.
  pub del_from : ℕ → Cursor → Bytes → Bytes → Bytes → M State (Unit {0})
  del_from zero c id k v s = (err out_of_fuel, s)
  del_from (suc fuel) c id k v s =
      if str_eq (dbt_to_string v) id
      then (on_error (c_del c) (c_close c) >> c_close c) s
      else (let (r, s') = c_get c next_dup k [] s in
          elim r [
            | ok (k', v') ↦ del_from fuel c id k' v' s'
            | err e ↦ elim e [ not_found ↦ c_close c s' | other ↦ (err other, (c_close c s').1) ]
          ])

  -- A read at the cursor that goes on, and on an error or DB_NOTFOUND closes the cursor.
  unfoldable pub at_key :
      {A : Type 0} → Cursor → Bytes → (Bytes × Bytes → M State A) → M State A → M State A
  at_key c k go missing s =
      let (r, s') = c_get c set_key k [] s in
      elim r [
        | ok kv ↦ go kv s'
        | err e ↦ elim e [ not_found ↦ missing s' | other ↦ (err other, (c_close c s').1) ]
      ]

  -- `del_index` on the denominations asked and bid.
  pub del_index : ℕ → Bytes → Bytes → Bytes → M State (Unit {0})
  del_index fuel id ask bid = do
    c ← cursor offer_index
    at_key c (pair_key ask bid) (λ kv. del_from fuel c id kv.0 kv.1) (c_close c)

  -- The loop of `find_all_offers`, with what it has found.
  pub collect : ℕ → Cursor → Bytes → Bytes → List Bytes → M State (List Bytes)
  collect zero c k v ol s = (err out_of_fuel, s)
  collect (suc fuel) c k v ol s =
      let ol' = dbt_to_string v ∷ ol in
      let (r, s') = c_get c next_dup k [] s in
      elim r [
        | ok (k', v') ↦ collect fuel c k' v' ol' s'
        | err e ↦ elim e [
          | not_found ↦ (c_close c >> pure ol') s'
          | other ↦ (err other, (c_close c s').1)
        ]
      ]

  pub find_all_offers : ℕ → Bytes → Bytes → M State (List Bytes)
  find_all_offers fuel ask bid = do
    c ← cursor offer_index
    at_key c (pair_key ask bid) (λ kv. collect fuel c kv.0 kv.1 []) (ignore (c_close c) >> pure [])

  module _ (n : Quantity) where
    -- A record that is no value leaves the object as it was.
    abbrev pub value_or : Value n.Q → Bytes → Value n.Q
    value_or old v = elim (string_to_value n (dbt_to_string v)) [ none ↦ old | some new ↦ new ]

    pub get_bid_value : Bytes → Value n.Q → M State (Value n.Q)
    get_bid_value id old = do v ← get offer_bid_value (string_to_dbt id); pure (value_or old v)

    pub set_bid_value : Bytes → Value n.Q → M State (Unit {0})
    set_bid_value id bid =
        put offer_bid_value (string_to_dbt id) (string_to_dbt (value_to_string n bid))

    pub del_bid_value : Bytes → M State (Unit {0})
    del_bid_value id = or_missing (del offer_bid_value (string_to_dbt id))

    pub get_ask_value : Bytes → Value n.Q → M State (Value n.Q)
    get_ask_value id old = do v ← get offer_ask_value (string_to_dbt id); pure (value_or old v)

    pub set_ask_value : Bytes → Value n.Q → M State (Unit {0})
    set_ask_value id ask =
        put offer_ask_value (string_to_dbt id) (string_to_dbt (value_to_string n ask))

    pub del_ask_value : Bytes → M State (Unit {0})
    del_ask_value id = or_missing (del offer_ask_value (string_to_dbt id))

    -- `set_index` with the ratio: a record of the index is the offer and its ratio.
    pub set_index_at : Bytes → Bytes → Bytes → n.Q → M State (Unit {0})
    set_index_at id ask bid ratio =
        put offer_index (pair_key ask bid) (pair_key id (bq_to_string n ratio))

    -- `set_index` with the values.
    pub set_index : Ratio n → Bytes → Value n.Q → Value n.Q → M State (Unit {0})
    set_index t id ask bid =
        if n.is_zero bid.quant
        then fail minus_one
        else set_index_at id ask.denom bid.denom (t.div ask.quant bid.quant)

    -- A fresh `bom::value`.
    abbrev pub no_value : Value n.Q
    no_value = record { denom = []; quant = n.zero }

    -- A read of `destroy`: DB_NOTFOUND ends it with 0.
    pub destroy : ℕ → Bytes → List Bytes → M State (Unit {0})
    destroy fuel id issuer =
        event_new_offer_destroy db id issuer
        >> on_found (get_ask_value id no_value)
            (λ ask. on_found (get_bid_value id no_value) (remove ask) (pure tt)) (pure tt)
      where
        remove : Value n.Q → Value n.Q → M State (Unit {0})
        remove ask bid =
            del_bid_value id
            >> del_ask_value id
            >> del_issuer id
            >> del_index fuel id ask.denom bid.denom

    -- `find_best_offer`: the first record of the pair; `none` is `*exists == 0`. A ratio that is no
    -- number leaves the old one.
    unfoldable pub find_best_offer : Bytes → Bytes → n.Q → M State (Option (Best n.Q))
    find_best_offer ask bid old = do
      c ← cursor offer_index
      at_key c (pair_key ask bid)
          (λ kv.
            c_close c
            >> pure (
                some (record {
                  offer = dbt_to_string kv.1;
                  ratio = ratio_or (string_to_bq n (dbt_to_string (behind_nul kv.1)));
                })))
          (ignore (c_close c) >> pure none)
      where
        ratio_or : Option n.Q → n.Q
        ratio_or none = old
        ratio_or (some q) = q
