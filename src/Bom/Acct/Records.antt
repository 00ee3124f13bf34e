-- ===== src/Bom/Acct/Records.antt =====
-- The flags and the promise of an account are read back as they were written (bom/acct.cc).
use d_barter.Base.{ℕ, ◌<◌, ◌≡◌, refl, sym, ◌∙◌, ap, inl, some}
use d_barter.Base.Bytes.{Bytes}
use d_barter.Bom.Store.{acct_flags, acct_promise, ok, Store}
use d_barter.Bom.Store.Laws.{IsStore}
use d_barter.Bom.Store.Effects.{stored, fetched}
use d_barter.Bom.Text.{
  string_to_dbt, dbt_to_string, dbt_to_string-string_to_dbt, flags_to_dbt, dbt_to_flags,
  dbt_to_flags-flags_to_dbt, NoNul,
}
use d_barter.Bom.Acct.{get_flags, set_flags, get_promise, set_promise}

some_bytes : {v w : Bytes} → some v ≡ some w → v ≡ w
some_bytes p = cc

module _ (db : Store) (law : IsStore db) where
  open db use {State}

  -- Flags of 32 bits and a promise that is a C string are got as they were set, if no call fails.
  pub get_flags_promise-set :
      (id : Bytes) (f g : ℕ) (p q : Bytes) (s s1 s2 s3 s4 : State)
      → f < 4294967296
      → NoNul p
      → set_flags db id f s ≡ (ok tt, s1)
      → set_promise db id p s1 ≡ (ok tt, s2)
      → get_flags db id s2 ≡ (ok g, s3)
      → get_promise db id s3 ≡ (ok q, s4)
      → (g ≡ f) × (q ≡ p)
  unfolding set_flags set_promise get_flags get_promise
  get_flags_promise-set id f g p q s s1 s2 s3 s4 lt h sf sp gf gp =
      let k = string_to_dbt id in
      let (cf, _) = stored db law acct_flags k (flags_to_dbt f) s s1 refl sf in
      let (cp, op) = stored db law acct_promise k (string_to_dbt p) s1 s2 refl sp in
      let ((v, cv, ev), keep) = fetched db law acct_flags k dbt_to_flags g s2 s3 refl gf in
      let ((w, cw, ew), _) = fetched db law acct_promise k dbt_to_string q s3 s4 refl gp in
      (
        sym ev
            ∙ ap dbt_to_flags (some_bytes (sym cv ∙ op acct_flags k (inl (λ e. cc)) ∙ cf))
            ∙ dbt_to_flags-flags_to_dbt f lt,
        sym ew
            ∙ ap dbt_to_string (some_bytes (sym cw ∙ keep acct_promise k ∙ cp))
            ∙ dbt_to_string-string_to_dbt p h,
      )
