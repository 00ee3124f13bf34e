-- ===== src/Bif/Shell/Money/Credits.antt =====
-- What the command `credit` of bif/shell.cc does when it succeeds: who may, and what every account then
-- holds.
use Prim.Native.String.{String}
use d_barter.Base.{◌≡◌, sym, ap, ◌∙◌, ℕ, true, ◌&&◌, some, List, [], ◌∷◌, All, if◌then◌else◌}
use d_barter.Base.Bytes.{Bytes, str_eq}
use d_barter.Bom.Store.{acct_flags, denom_issuer, Store}
use d_barter.Bom.Store.Laws.{IsStore}
use d_barter.Bom.Text.{string_to_dbt, dbt_to_flags}
use d_barter.Bom.Value.{Value}
use d_barter.Bom.Acct.Exists.{IsAcct, exists-IsAcct}
use d_barter.Bom.Acct
use d_barter.Bom.Acct.{is_super}
use d_barter.Bom.Acct.Licence.{flags_of, map_some, Kept}
use d_barter.Bom.Denom
use d_barter.Bom.Denom.Exists.{IsDenom, exists-IsDenom}
use d_barter.Dmath.Quantity.{Quantity, IsQuantity}
use d_barter.Bif.Shell.{go, ◌>>◌, caller}
use d_barter.Bif.Shell.Subject.{must_exist, must_be_super}
use d_barter.Bif.Shell.Inversion.{bind-go, must_exist-go, must_be_super-go}
use d_barter.Bif.Shell.Money.{denoms_exist, admit}

module _ (db : Store) (law : IsStore db) (n : Quantity) (nlaw : IsQuantity n) where
  open db use {State}

  -- The balance after the values that are credited to `id`: those of the denomination are added.
  pub credits : Bytes → Bytes → Bytes → List (Value n.Q) → n.Q → n.Q
  credits id i d [] q = q
  credits id i d (v ∷ vl) q =
      credits id i d vl (if str_eq i id && str_eq d v.denom then n.add q v.quant else q)

  earlier-IsDenom :
      (vl : List (Value n.Q)) (s s' : State)
      → Kept db law s s'
      → All (λ v. IsDenom db law v.denom s') vl
      → All (λ v. IsDenom db law v.denom s) vl
  earlier-IsDenom [] s s' k h = tt
  earlier-IsDenom (v ∷ vl) s s' k ((w, e), h) =
      ((w, sym (k denom_issuer (string_to_dbt v.denom)) ∙ e), earlier-IsDenom vl s s' k h)

  denoms_exist-Kept :
      (vl : List (Value n.Q)) (s s' : State)
      → denoms_exist n db vl s ≡ (go tt, s')
      → All (λ v. IsDenom db law v.denom s) vl × Kept db law s s'
  unfolding denoms_exist
  denoms_exist-Kept [] s s' h = (tt, λ t j. ap (law.content t j) (sym (ap (λ x. x.1) h)))
  denoms_exist-Kept (v ∷ vl) s s' h =
      let text : String = "denom not found" in
      let test = Denom.exists db v.denom in
      let (_, s1, p, q) = bind-go (must_exist test text) (λ _. denoms_exist n db vl) s s' tt h in
      let (d, k) = exists-IsDenom db law v.denom s s1 (must_exist-go test text s s1 p) in
      let (ds, k') = denoms_exist-Kept vl s1 s' q in
      ((d, earlier-IsDenom vl s s1 k ds), λ t j. k' t j ∙ k t j)

  -- Who gets past the tests of `credit` and `debit`.
  pub admit-Kept :
      (id me : Bytes) (vl : List (Value n.Q)) (s s' : State)
      → admit n db id vl (some me) s ≡ (go tt, s')
      → ((f : ℕ) × (flags_of db law me s ≡ some f) × (is_super f ≡ true))
        × IsAcct db law id s
        × All (λ v. IsDenom db law v.denom s) vl
        × Kept db law s s'
  unfolding admit caller
  admit-Kept id me vl s s' h =
      let text : String = "no such acct" in
      let test = Acct.exists db id in
      let denied : String = "permission denied" in
      let (_, s1, p, q) =
        bind-go (must_exist test text) (λ _. must_be_super db me denied >> denoms_exist n db vl) s
          s' tt h in
      let (a, k) = exists-IsAcct db law id s s1 (must_exist-go test text s s1 p) in
      let (_, s2, p2, q2) =
        bind-go (must_be_super db me denied) (λ _. denoms_exist n db vl) s1 s' tt q in
      let ((f, e, super), k2) = must_be_super-go db law me denied s1 s2 p2 in
      let (ds, k3) = denoms_exist-Kept vl s2 s' q2 in
      let k12 : Kept db law s s2 = λ t j. k2 t j ∙ k t j in
      (
        (f, sym (ap (map_some dbt_to_flags) (k acct_flags (string_to_dbt me))) ∙ e, super),
        a,
        earlier-IsDenom vl s s2 k12 ds,
        λ t j. k3 t j ∙ k12 t j,
      )
