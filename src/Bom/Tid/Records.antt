-- ===== src/Bom/Tid/Records.antt =====
-- The two records of a transaction identifier (bom/tid.cc).
use d_barter.Base.{◌≡◌, ◌≢◌, refl, sym, ◌∙◌, ap, ◌⊎◌, inl, inr, none, some}
use d_barter.Base.Bytes.{Bytes}
use d_barter.Bom.Store.{Table, tid_acct, tid_command, ok, Store, or_missing}
use d_barter.Bom.Store.Laws.{IsStore}
use d_barter.Bom.Store.Monad.{>>=-eq-ok}
use d_barter.Bom.Store.Effects.{stored, fetched, removed}
use d_barter.Bom.Text.{string_to_dbt, dbt_to_string, dbt_to_string-string_to_dbt, NoNul}
use d_barter.Bom.Tid.{get_command, set_command, del_command, get_acct, set_acct, del_acct, destroy}

module _ (db : Store) (law : IsStore db) where
  open db use {State}
  open law use {content}

  -- After a `destroy` that ends well neither table holds a record of the identifier, and no other
  -- record has changed.
  pub destroy-removes :
      (id : Bytes) (s s' : State)
      → destroy db id s ≡ (ok tt, s')
      → (content tid_command (string_to_dbt id) s' ≡ none)
        × (content tid_acct (string_to_dbt id) s' ≡ none)
        × ((u : Table) (j : Bytes)
            → ((u ≢ tid_command) × (u ≢ tid_acct)) ⊎ (j ≢ string_to_dbt id)
            → content u j s' ≡ content u j s)
  unfolding destroy del_command del_acct
  destroy-removes id s s' h =
      let (x, p, q) =
        >>=-eq-ok (or_missing (db.del tid_command k)) (λ _. or_missing (db.del tid_acct k)) s s' tt
          h in
      let s1 = (or_missing (db.del tid_command k) s).1 in
      let (a, oa) = removed db law tid_command k s s1 refl (λ i. (p i, s1)) in
      let (b, ob) = removed db law tid_acct k s1 s' refl q in
      (
        ob tid_command k (inl (λ e. cc)) ∙ a,
        b,
        λ u j o. ob u j (second u j o) ∙ oa u j (first u j o),
      )
    where
      k : Bytes
      k = string_to_dbt id

      first :
          (u : Table) (j : Bytes)
          → ((u ≢ tid_command) × (u ≢ tid_acct)) ⊎ (j ≢ k)
          → (u ≢ tid_command) ⊎ (j ≢ k)
      first u j (inl o) = inl o.0
      first u j (inr o) = inr o

      second :
          (u : Table) (j : Bytes)
          → ((u ≢ tid_command) × (u ≢ tid_acct)) ⊎ (j ≢ k)
          → (u ≢ tid_acct) ⊎ (j ≢ k)
      second u j (inl o) = inl o.1
      second u j (inr o) = inr o

  -- The command and the account that are set for an identifier, C strings both, are those that are
  -- got, if no call fails.
  pub gets-sets :
      (id command acct c a : Bytes) (s s1 s2 s3 s4 : State)
      → NoNul command
      → NoNul acct
      → set_command db id command s ≡ (ok tt, s1)
      → set_acct db id acct s1 ≡ (ok tt, s2)
      → get_command db id s2 ≡ (ok c, s3)
      → get_acct db id s3 ≡ (ok a, s4)
      → (c ≡ command) × (a ≡ acct)
  unfolding set_command set_acct get_command get_acct
  gets-sets id command acct c a s s1 s2 s3 s4 hc ha p q g h =
      let k = string_to_dbt id in
      let (sc, _) = stored db law tid_command k (string_to_dbt command) s s1 refl p in
      let (sa, oa) = stored db law tid_acct k (string_to_dbt acct) s1 s2 refl q in
      let ((v, cv, ev), keep) = fetched db law tid_command k dbt_to_string c s2 s3 refl g in
      let ((w, cw, ew), _) = fetched db law tid_acct k dbt_to_string a s3 s4 refl h in
      (
        sym ev ∙ read command v hc (sym cv ∙ oa tid_command k (inl (λ e. cc)) ∙ sc),
        sym ew ∙ read acct w ha (sym cw ∙ keep tid_acct k ∙ sa),
      )
    where
      read :
          (text v : Bytes)
          → NoNul text
          → some v ≡ some (string_to_dbt text)
          → dbt_to_string v ≡ text
      read text v n e = ap dbt_to_string (inside e) ∙ dbt_to_string-string_to_dbt text n
        where
          inside : some v ≡ some (string_to_dbt text) → v ≡ string_to_dbt text
          inside p = cc
