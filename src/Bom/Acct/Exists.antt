-- ===== src/Bom/Acct/Exists.antt =====
-- When an account exists (bom/acct.cc).
use d_barter.Base.{◌≡◌, refl, true, some}
use d_barter.Base.Bytes.{Bytes}
use d_barter.Bom.Store.{acct_public, ok, Store}
use d_barter.Bom.Store.Laws.{IsStore}
use d_barter.Bom.Store.Effects.{found}
use d_barter.Bom.Text.{string_to_dbt}
use d_barter.Bom.Acct.{exists}
use d_barter.Bom.Acct.Licence.{Kept}

module _ (db : Store) (law : IsStore db) where
  -- An account has a public key.
  abbrev pub IsAcct : Bytes → db.State → Type 0
  IsAcct id s = (v : Bytes) × (law.content acct_public (string_to_dbt id) s ≡ some v)

  pub exists-IsAcct :
      (id : Bytes) (s s' : db.State)
      → exists db id s ≡ (ok true, s')
      → IsAcct id s × Kept db law s s'
  unfolding exists
  exists-IsAcct id s s' h = found db law acct_public (string_to_dbt id) s s' refl h
