-- ===== src/Bom/Store/Effects.antt =====
-- What the three shapes of a method of bom/ on one record do: it stores, fetches or removes.
use d_barter.Base.{true, ◌≡◌, ◌≢◌, ap, subst, ◌⊎◌, inl, inr, false, none, some}
use d_barter.Base.Bytes.{Bytes}
use d_barter.Bom.Store.{Table, is_dup, not_found, ok, err, pure, ◌>>=◌, Store, or_missing, is_there}
use d_barter.Bom.Store.Laws.{IsStore}
use d_barter.Bom.Store.Monad.{>>=-eq-ok, on_found-eq-ok, or_missing-eq-ok}

module _ (db : Store) (law : IsStore db) where
  open db use {State}
  open law use {content}

  -- The second state differs from the first at most under one key of one table.
  abbrev pub OnlyAt : Table → Bytes → State → State → Type 0
  OnlyAt t k s s' = (u : Table) (j : Bytes) → (u ≢ t) ⊎ (j ≢ k) → content u j s' ≡ content u j s

  pub stored :
      (t : Table) (k v : Bytes) (s s' : State)
      → is_dup t ≡ false
      → db.put t k v s ≡ (ok tt, s')
      → (content t k s' ≡ some v) × OnlyAt t k s s'
  stored t k v s s' d h = (
    subst (λ y. content t k y ≡ some v) (ap (λ r. r.1) h) (law.put_ok t k v s d (ap (λ r. r.0) h)),
    subst (OnlyAt t k s) (ap (λ r. r.1) h) (λ u j o. law.put_others t k v s u j o),
  )

  pub fetched :
      {A : Type 0} (t : Table) (k : Bytes) (f : Bytes → A) (w : A) (s s' : State)
      → is_dup t ≡ false
      → (db.get t k >>= λ v. pure (f v)) s ≡ (ok w, s')
      → ((v : Bytes) × (content t k s ≡ some v) × (f v ≡ w))
        × ((u : Table) (j : Bytes) → content u j s' ≡ content u j s)
  fetched {A = A} t k f w s s' d h =
      let (v, p, q) = >>=-eq-ok (db.get t k) (λ v. pure (f v)) s s' w h in
      (
        (v, law.get_ok t k v s d p, ok_value (ap (λ r. r.0) q)),
        subst (λ y. (u : Table) (j : Bytes) → content u j y ≡ content u j s) (ap (λ r. r.1) q)
            (law.get_keeps t k s),
      )
    where
      ok_value : {a b : A} → ok a ≡ ok b → a ≡ b
      ok_value p = cc

  pub removed :
      (t : Table) (k : Bytes) (s s' : State)
      → is_dup t ≡ false
      → or_missing (db.del t k) s ≡ (ok tt, s')
      → (content t k s' ≡ none) × OnlyAt t k s s'
  removed t k s s' d h = (
    subst (λ y. content t k y ≡ none) g.1 (gone g.0),
    subst (OnlyAt t k s) g.1 (λ u j o. law.del_others t k s u j o),
  )
    where
      g :
          (((db.del t k s).0 ≡ ok tt) ⊎ ((db.del t k s).0 ≡ err not_found))
          × ((db.del t k s).1 ≡ s')
      g = or_missing-eq-ok (db.del t k) s s' h

      gone :
          ((db.del t k s).0 ≡ ok tt) ⊎ ((db.del t k s).0 ≡ err not_found)
          → content t k (db.del t k s).1 ≡ none
      gone (inl p) = law.del_ok t k s d p
      gone (inr p) = law.del_missing t k s d p

  -- A record that is there.
  pub found :
      (t : Table) (k : Bytes) (s s' : State)
      → is_dup t ≡ false
      → is_there (db.get t k) s ≡ (ok true, s')
      → ((v : Bytes) × (content t k s ≡ some v))
        × ((u : Table) (j : Bytes) → content u j s' ≡ content u j s)
  found t k s s' d h =
      elim (on_found-eq-ok (db.get t k) (λ _. pure true) (pure false) s s' true h) [
        | inl (v, p, q) ↦ (
          (v, law.get_ok t k v s d p),
          subst (λ y. (u : Table) (j : Bytes) → content u j y ≡ content u j s) (ap (λ r. r.1) q)
              (law.get_keeps t k s),
        )
        | inr (p, q) ↦ cc
      ]
