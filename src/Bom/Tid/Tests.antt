-- ===== src/Bom/Tid/Tests.antt =====
-- A transaction identifier on the database in memory.
use d_barter.Base.{◌≡◌, ◌≢◌, ◌⊎◌, refl, none, arith}
use d_barter.Base.Bytes.{Bytes, codes, str_eq}
use d_barter.Bom.Store.{Table, tid_acct, tid_command, ok}
use d_barter.Bom.Store.Memory.{Table-discrete, Memory, no_rows, memory, memory-IsStore}
use d_barter.Bom.Text.{string_to_dbt, dbt_to_string}
use d_barter.Bom.Tid.{get_command, set_command, del_command, get_acct, set_acct, del_acct, destroy}
use d_barter.Bom.Tid.Records.{destroy-removes, gets-sets}

abbrev with_command : Memory
with_command = (set_command memory (codes "t") (codes "go") no_rows).1

abbrev with_acct : Memory
with_acct = (set_acct memory (codes "t") (codes "me") with_command).1

command_set : set_command memory (codes "t") (codes "go") no_rows ≡ (ok tt, with_command)
unfolding set_command
command_set = refl

acct_set : set_acct memory (codes "t") (codes "me") with_command ≡ (ok tt, with_acct)
unfolding set_acct
acct_set = refl

command_got : get_command memory (codes "t") with_acct ≡ (ok (codes "go"), with_acct)
unfolding get_command set_command set_acct Table-discrete str_eq string_to_dbt dbt_to_string
command_got = refl

acct_got : get_acct memory (codes "t") with_acct ≡ (ok (codes "me"), with_acct)
unfolding get_acct set_acct Table-discrete str_eq string_to_dbt dbt_to_string
acct_got = refl

abbrev destroyed : Memory
destroyed = (destroy memory (codes "t") with_acct).1

tid_destroyed : destroy memory (codes "t") with_acct ≡ (ok tt, destroyed)
unfolding destroy del_command del_acct
tid_destroyed = refl

gets-sets_example : (codes "go" ≡ codes "go") × (codes "me" ≡ codes "me")
gets-sets_example =
    gets-sets memory memory-IsStore (codes "t") (codes "go") (codes "me") (codes "go") (codes "me")
      no_rows with_command with_acct with_acct with_acct (λ e. omega arith, (λ e. omega arith, tt))
      (λ e. omega arith, (λ e. omega arith, tt)) command_set acct_set command_got acct_got

destroy-removes_example :
    (memory-IsStore.content tid_command (string_to_dbt (codes "t")) destroyed ≡ none)
    × (memory-IsStore.content tid_acct (string_to_dbt (codes "t")) destroyed ≡ none)
    × ((u : Table) (j : Bytes)
        → ((u ≢ tid_command) × (u ≢ tid_acct)) ⊎ (j ≢ string_to_dbt (codes "t"))
        → memory-IsStore.content u j destroyed ≡ memory-IsStore.content u j with_acct)
destroy-removes_example =
    destroy-removes memory memory-IsStore (codes "t") with_acct destroyed tid_destroyed
