-- ===== src/Bom/Event/Reads/Names.antt =====
-- The accounts of an event are read back (bom/event.cc), as long as their names are equally long: the
-- loop steps by the length of the first.
use d_barter.Base.{
  ℕ, ◌≡◌, refl, ap, ◌∙◌, sym, List, [], ◌∷◌, ◌++◌, All, length, length-append, arith,
}
use d_barter.Base.Bytes.{Bytes}
use d_barter.Bom.Text.{string_to_dbt, dbt_to_string-append, NoNul}
use d_barter.Bom.Event.{acct_list_bytes}
use d_barter.Bom.Event.Reads.{walk_accts, dbt_to_accts}

skip_name : (first : ℕ) (u t : Bytes) → walk_accts first (length u) (u ++ t) ≡ walk_accts first 0 t
unfolding walk_accts
skip_name first [] t = refl
skip_name first (c ∷ u) t = skip_name first u t

walk_name :
    (first : ℕ) (u rest : Bytes)
    → NoNul u
    → length u ≡ first
    → walk_accts first 0 (string_to_dbt u ++ rest) ≡ u ∷ walk_accts first 0 rest
unfolding walk_accts string_to_dbt
walk_name first [] rest h e =
    ap (λ name. name ∷ walk_accts first first rest) (dbt_to_string-append [] rest tt)
    ∙ ap (λ k. [] ∷ walk_accts first k rest) (sym e)
walk_name first (c ∷ u) rest h e =
    let n : length (u ++ (0 ∷ [])) ≡ first = omega (arith, length-append u (0 ∷ []), e) in
    ap (λ name. name ∷ walk_accts first first ((u ++ (0 ∷ [])) ++ rest))
      (dbt_to_string-append (c ∷ u) rest h)
    ∙ ap (λ k. (c ∷ u) ∷ walk_accts first k ((u ++ (0 ∷ [])) ++ rest)) (sym n)
    ∙ ap (λ t. (c ∷ u) ∷ t) (skip_name first (u ++ (0 ∷ [])) rest)

walk-acct_list_bytes :
    (first : ℕ) (ul : List Bytes)
    → All (λ u. NoNul u × (length u ≡ first)) ul
    → walk_accts first 0 (acct_list_bytes ul) ≡ ul
unfolding acct_list_bytes walk_accts
walk-acct_list_bytes first [] h = refl
walk-acct_list_bytes first (u ∷ ul) ((h, e), hs) =
    walk_name first u (acct_list_bytes ul) h e ∙ ap (λ t. u ∷ t) (walk-acct_list_bytes first ul hs)

-- The accounts of an event, C strings that are all as long as the first, are read back as they were
-- written.
pub dbt_to_accts-acct_list_bytes :
    (first : ℕ) (ul : List Bytes)
    → All (λ u. NoNul u × (length u ≡ first)) ul
    → dbt_to_accts (acct_list_bytes ul) ≡ ul
unfolding dbt_to_accts acct_list_bytes walk_accts
dbt_to_accts-acct_list_bytes first [] h = refl
dbt_to_accts-acct_list_bytes first (u ∷ ul) ((h, e), hs) =
    ap (λ k. walk_accts k 0 (string_to_dbt u ++ acct_list_bytes ul))
      (ap length (dbt_to_string-append u (acct_list_bytes ul) h) ∙ e)
    ∙ walk-acct_list_bytes first (u ∷ ul) ((h, e), hs)
