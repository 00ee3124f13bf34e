-- ===== src/Bom/Acct/History.antt =====
-- What any run of the operations on money of bom/acct.cc keeps, and that credits and debits undo each
-- other.
use d_barter.Base.{◌≡◌, ◌≢◌, refl, sym, ◌∙◌, ap, ◌⊎◌, inl, inr, Bool, true, false, Bool-cases}
use d_barter.Base.Bytes.{Bytes, str_eq, str_eq_iff}
use d_barter.Bom.Store.{acct_value, acct_flags, denom_issuer, ok, Store}
use d_barter.Bom.Store.Laws.{IsStore}
use d_barter.Bom.Text.{
  string_to_dbt, dbt_to_string, dbt_to_flags, pair_key, pair_key-injective, NoNul,
}
use d_barter.Bom.Value.{Value}
use d_barter.Bom.Acct.{credit, debit, debit_forced}
use d_barter.Bom.Acct.Balance.{
  amount, balance, Sets, Elsewhere, credit-balance, debit_forced-balance,
}
use d_barter.Bom.Acct.Licence.{IsLicensed, map_some}
use d_barter.Bom.Acct.Debit.{Debits, debit-Debits}
use d_barter.Dmath.Quantity.{Quantity, IsQuantity}

-- Two C strings are the same or not.
same_text : (a b : Bytes) → (a ≡ b) ⊎ (a ≢ b)
same_text a b = elim (Bool-cases (str_eq a b)) [
  | inl e ↦ inl ((str_eq_iff a b).0 e)
  | inr e ↦ inr (λ p. cc ((str_eq_iff a b).1 p))
]

-- Two pairs of a holder and a denomination are the same or have different keys.
pub same_key :
    (a b c d : Bytes)
    → NoNul a
    → NoNul b
    → NoNul c
    → NoNul d
    → ((a ≡ c) × (b ≡ d)) ⊎ (pair_key a b ≢ pair_key c d)
same_key a b c d ha hb hc hd = elim (same_text (pair_key a b) (pair_key c d)) [
  | inl e ↦ inl (pair_key-injective a b c d ha hb hc hd e)
  | inr e ↦ inr e
]

module _ (db : Store) (law : IsStore db) (n : Quantity) (nlaw : IsQuantity n) where
  open db use {State}
  open law use {content}

  -- An operation that sets one balance leaves every other.
  pub balance-others :
      (id denom i d : Bytes) (q : n.Q) (s s' : State)
      → pair_key i d ≢ pair_key id denom
      → Sets db law n nlaw id denom q s s'
      → balance db law n nlaw i d s' ≡ balance db law n nlaw i d s
  balance-others id denom i d q s s' ne (e, o) =
      ap (amount db law n nlaw) (o acct_value (pair_key i d) refl (inr ne))

  -- A credit that succeeds, followed by a forced debit of the same value that ends well, leaves
  -- every account with the balances that it had, if all names are C strings.
  pub debit_forced-credit :
      (id i d : Bytes) (v : Value n.Q) (s s1 s2 : State)
      → NoNul id
      → NoNul v.denom
      → NoNul i
      → NoNul d
      → credit db n id v s ≡ (ok true, s1)
      → debit_forced db n id v s1 ≡ (ok tt, s2)
      → balance db law n nlaw i d s2 ≡ balance db law n nlaw i d s
  debit_forced-credit id i d v s s1 s2 hid hv hi hd p q =
      elim (same_key i d id v.denom hi hd hid hv) [
        | inr ne ↦
            balance-others id v.denom i d _ s1 s2 ne b ∙ balance-others id v.denom i d _ s s1 ne a
        | inl (e, f) ↦
            rw (e, f)
              (b.0
                ∙ ap (λ x. n.sub x v.quant) a.0
                ∙ nlaw.sub-add (balance db law n nlaw id v.denom s) v.quant)
      ]
    where
      a : Sets db law n nlaw id v.denom (n.add (balance db law n nlaw id v.denom s) v.quant) s s1
      a = credit-balance db law n nlaw id v s s1 p

      b : Sets db law n nlaw id v.denom (n.sub (balance db law n nlaw id v.denom s1) v.quant) s1 s2
      b = debit_forced-balance db law n nlaw id v s1 s2 q

  -- A run of credits and debits, each of which ended without a database error: credits of amounts
  -- that are not negative, and debits of any amounts, granted or refused.
  pub data History (s : State) : State → Type 0 where
    start : History s s
    credited :
        (id : Bytes) (v : Value n.Q) {t u : State}
        → History s t
        → NoNul id
        → NoNul v.denom
        → n.is_neg v.quant ≡ false
        → credit db n id v t ≡ (ok true, u)
        → History s u
    debited :
        (id : Bytes) (v : Value n.Q) (b : Bool) {t u : State}
        → History s t
        → NoNul id
        → NoNul v.denom
        → debit db n id v t ≡ (ok b, u)
        → History s u

  -- The tables that say who may overdraw are the same.
  abbrev SameRights : State → State → Type 0
  SameRights s s' =
      ((j : Bytes) → content acct_flags j s' ≡ content acct_flags j s)
      × ((j : Bytes) → content denom_issuer j s' ≡ content denom_issuer j s)

  SameRights-of_Elsewhere :
      (k : Bytes) (s s' : State) → Elsewhere db law n nlaw k s s' → SameRights s s'
  SameRights-of_Elsewhere k s s' o =
      (λ j. o acct_flags j refl (inl (λ e. cc)), λ j. o denom_issuer j refl (inl (λ e. cc)))

  SameRights-of_Debits :
      (id : Bytes) (v : Value n.Q) (b : Bool) (s s' : State)
      → Debits db law n nlaw id v b s s'
      → SameRights s s'
  SameRights-of_Debits id v true s s' d = SameRights-of_Elsewhere (pair_key id v.denom) s s' d.0.1
  SameRights-of_Debits id v false s s' k = (k acct_flags, k denom_issuer)

  IsLicensed-SameRights :
      (id denom : Bytes) (s s' : State)
      → SameRights s s'
      → IsLicensed db law id denom s'
      → IsLicensed db law id denom s
  IsLicensed-SameRights id denom s s' (a, b) (f, e, inl su) =
      (f, sym (ap (map_some dbt_to_flags) (a (string_to_dbt id))) ∙ e, inl su)
  IsLicensed-SameRights id denom s s' (a, b) (f, e, inr (is, g)) = (
    f,
    sym (ap (map_some dbt_to_flags) (a (string_to_dbt id))) ∙ e,
    inr (is, sym (ap (map_some dbt_to_string) (b (string_to_dbt denom))) ∙ g),
  )

  -- What the run keeps: the rights, and that a balance is not negative unless its holder is licensed.
  abbrev IsCovered : Bytes → Bytes → State → Type 0
  IsCovered i d s = (n.is_neg (balance db law n nlaw i d s) ≡ false) ⊎ IsLicensed db law i d s

  IsCovered-Sets :
      (id denom i d : Bytes) (q : n.Q) (s s' : State)
      → NoNul id
      → NoNul denom
      → NoNul i
      → NoNul d
      → Sets db law n nlaw id denom q s s'
      → ((id ≡ i) → (denom ≡ d) → (n.is_neg q ≡ false) ⊎ IsLicensed db law id denom s)
      → (n.is_neg (balance db law n nlaw i d s) ≡ false)
      → (n.is_neg (balance db law n nlaw i d s') ≡ false) ⊎ IsLicensed db law i d s
  IsCovered-Sets id denom i d q s s' hid hden hi hd w k c =
      elim (same_key i d id denom hi hd hid hden) [
        | inr ne ↦ inl (ap n.is_neg (balance-others id denom i d q s s' ne w) ∙ c)
        | inl (e, f) ↦ elim (k (sym e) (sym f)) [
          | inl p ↦ inl (rw (e, f) (ap n.is_neg w.0 ∙ p))
          | inr l ↦ inr (rw (e, f) l)
        ]
      ]

  -- An account that may not overdraw, and whose balance is not negative, keeps a balance that is not
  -- negative through every run of credits of amounts that are not negative and of debits, granted or
  -- refused, to whatever accounts they go, if each ends without a database error and all names are C
  -- strings.
  pub History-nonneg :
      (i d : Bytes) (s s' : State)
      → NoNul i
      → NoNul d
      → ¬ IsLicensed db law i d s
      → n.is_neg (balance db law n nlaw i d s) ≡ false
      → History s s'
      → n.is_neg (balance db law n nlaw i d s') ≡ false
  History-nonneg i d s s' hi hd poor c h = (kept h).0
    where
      settle :
          (t u : State)
          → SameRights s t
          → (n.is_neg (balance db law n nlaw i d u) ≡ false) ⊎ IsLicensed db law i d t
          → n.is_neg (balance db law n nlaw i d u) ≡ false
      settle t u r (inl p) = p
      settle t u r (inr l) = absurd (poor (IsLicensed-SameRights i d s t r l))

      granted :
          (id : Bytes) (v : Value n.Q) (b : Bool) (t u : State)
          → NoNul id
          → NoNul v.denom
          → SameRights s t
          → n.is_neg (balance db law n nlaw i d t) ≡ false
          → Debits db law n nlaw id v b t u
          → n.is_neg (balance db law n nlaw i d u) ≡ false
      granted id v false t u hid hv r p k =
          ap n.is_neg (ap (amount db law n nlaw) (k acct_value (pair_key i d))) ∙ p
      granted id v true t u hid hv r p (w, l) =
          settle t u r (IsCovered-Sets id v.denom i d _ t u hid hv hi hd w (λ _ _. l) p)

      kept :
          {u : State}
          → History s u
          → (n.is_neg (balance db law n nlaw i d u) ≡ false) × SameRights s u
      kept start = (c, (λ j. refl, λ j. refl))
      kept (credited id v {t = t} {u = u} h hid hv nn e) =
          let (p, r) = kept h in
          let w = credit-balance db law n nlaw id v t u e in
          let (a, b) = SameRights-of_Elsewhere (pair_key id v.denom) t u w.1 in
          (
            settle t u r (
                IsCovered-Sets id v.denom i d _ t u hid hv hi hd w
                  (λ x y. inl (nlaw.add_nonneg _ _ (rw (x, y) p) nn)) p),
            (λ j. a j ∙ r.0 j, λ j. b j ∙ r.1 j),
          )
      kept (debited id v b {t = t} {u = u} h hid hv e) =
          let (p, r) = kept h in
          let w = debit-Debits db law n nlaw id v b t u e in
          let (x, y) = SameRights-of_Debits id v b t u w in
          (granted id v b t u hid hv r p w, (λ j. x j ∙ r.0 j, λ j. y j ∙ r.1 j))
