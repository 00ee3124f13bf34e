-- ===== src/Bom/Event/Tests.antt =====
-- The type of an event on the database in memory.
use d_barter.Base.{◌≡◌, refl, arith, List, [], ◌∷◌}
use d_barter.Base.Bytes.{Bytes, codes, str_eq}
use d_barter.Bom.Store.{ok}
use d_barter.Bom.Store.Memory.{Table-discrete, Memory, no_rows, memory, memory-IsStore}
use d_barter.Bom.Text.{string_to_dbt, dbt_to_string, int32_to_dbt}
use d_barter.Bom.Event.Reads.{dbt_to_accts}
use d_barter.Bom.Event.Reads.Names.{dbt_to_accts-acct_list_bytes}
use d_barter.Bom.Event.{
  acct_list_bytes, offer_create, event_name, event_types, find_type, get_type, set_type,
}
use d_barter.Bom.Event.Types.{get_type-set_type}

abbrev typed : Memory
typed = (set_type memory 7 offer_create no_rows).1

type_set : set_type memory 7 offer_create no_rows ≡ (ok tt, typed)
unfolding set_type
type_set = refl

type_got : get_type memory 7 typed ≡ (ok offer_create, typed)
unfolding get_type set_type find_type event_types event_name str_eq string_to_dbt dbt_to_string
    int32_to_dbt Table-discrete
type_got = refl

get_type-set_type_example : offer_create ≡ offer_create
get_type-set_type_example =
    get_type-set_type memory memory-IsStore 7 offer_create offer_create no_rows typed typed type_set
      type_got

abbrev names : List Bytes
names = codes "jdb" ∷ codes "ann" ∷ []

dbt_to_accts-acct_list_bytes_example : dbt_to_accts (acct_list_bytes names) ≡ names
dbt_to_accts-acct_list_bytes_example = dbt_to_accts-acct_list_bytes 3 names (
  ((λ e. omega arith, (λ e. omega arith, (λ e. omega arith, tt))), refl),
  (((λ e. omega arith, (λ e. omega arith, (λ e. omega arith, tt))), refl), tt),
)
