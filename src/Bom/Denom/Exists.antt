-- ===== src/Bom/Denom/Exists.antt =====
-- When a denomination exists (bom/denom.cc).
use d_barter.Base.{◌≡◌, refl, true, some}
use d_barter.Base.Bytes.{Bytes}
use d_barter.Bom.Store.{denom_issuer, ok, Store}
use d_barter.Bom.Store.Laws.{IsStore}
use d_barter.Bom.Store.Effects.{found}
use d_barter.Bom.Text.{string_to_dbt}
use d_barter.Bom.Denom.{exists}
use d_barter.Bom.Acct.Licence.{Kept}

module _ (db : Store) (law : IsStore db) where
  -- A denomination has an issuer.
  abbrev pub IsDenom : Bytes → db.State → Type 0
  IsDenom id s = (v : Bytes) × (law.content denom_issuer (string_to_dbt id) s ≡ some v)

  pub exists-IsDenom :
      (id : Bytes) (s s' : db.State)
      → exists db id s ≡ (ok true, s')
      → IsDenom id s × Kept db law s s'
  unfolding exists
  exists-IsDenom id s s' h = found db law denom_issuer (string_to_dbt id) s s' refl h
