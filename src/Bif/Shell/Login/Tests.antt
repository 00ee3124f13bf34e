-- ===== src/Bif/Shell/Login/Tests.antt =====
-- A challenge that is answered, on the database in memory, with numbers written in ones.
use d_barter.Base.{ℕ, ◌≡◌, refl, true, false, none, some, [], ◌∷◌}
use d_barter.Base.Bytes.{codes, str_eq}
use d_barter.Bom.Store.Memory.{Table-discrete, Memory, no_rows, memory}
use d_barter.Bom.Text.{string_to_dbt, dbt_to_string}
use d_barter.Bom.Acct.{dbt_to_bz, get_modulus, set_modulus, get_public, set_public, verify_reponse}
use d_barter.Dmath.Integer.Ones.{counts}
use d_barter.Dmath.Rsa.{split, join, rsa_crypt}
use d_barter.Bif.Shell.{Shell}
use d_barter.Bif.Shell.Transact.{transact, alone, began, ended_alone, committed, answer}
use d_barter.Bif.Shell.Memory.{Committed, local, local-IsServer}
use d_barter.Bif.Shell.Login.{respond_body, responded, respond_as, cmd_respond}
use d_barter.Bif.Shell.Login.Proved.{Proven, cmd_respond-authenticates}

-- The account `u` with the public key 3 of modulus 5.
abbrev keyed : Memory
keyed =
    (set_public memory counts (codes "u") 3 (set_modulus memory counts (codes "u") 5 no_rows).1).1

abbrev challenged : Shell Memory ℕ
challenged = record { status = false; acct = some (codes "u"); challenge = 1; parent = none }

abbrev w : Committed
w = record { data_of = keyed; opened = 0 }

accepted :
    (cmd_respond memory counts local 1 (codes "respond" ∷ codes "11" ∷ []) challenged w).1.0.status
    ≡ true
unfolding cmd_respond respond_as responded respond_body transact alone began ended_alone committed
    answer verify_reponse get_modulus get_public set_modulus set_public dbt_to_bz dbt_to_string
    string_to_dbt str_eq Table-discrete rsa_crypt split join
accepted = refl

cmd_respond-authenticates_example :
    Proven memory counts local local-IsServer challenged (some 2) keyed
cmd_respond-authenticates_example =
    cmd_respond-authenticates memory counts local local-IsServer 1 (codes "respond") (codes "11")
      challenged w refl refl accepted
