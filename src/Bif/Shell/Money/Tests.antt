-- ===== src/Bif/Shell/Money/Tests.antt =====
-- A credit on the database in memory, and in transactions on it.
use d_barter.Base.{ℕ, ◌≡◌, refl, some, [], ◌∷◌, List}
use d_barter.Base.Bytes.{Bytes, codes, str_eq, break_at, read_digits}
use d_barter.Base.Int.{ℤ, pos}
use d_barter.Bom.Store.{acct_public, denom_issuer}
use d_barter.Bom.Store.Memory.{Memory, no_rows, memory, write}
use d_barter.Bom.Text.{string_to_dbt}
use d_barter.Bom.Value.{Value, value_to_string, string_to_value}
use d_barter.Bom.Acct
use d_barter.Bom.Acct.{set_flags}
use d_barter.Bom.Denom
use d_barter.Dmath.Bq.{string_to_bq}
use d_barter.Dmath.Quantity.Hundredths.{hundredths}
use d_barter.Bif.Shell.Transact.{alone}
use d_barter.Bif.Shell.Memory.{Committed, local, local-IsServer}
use d_barter.Bif.Shell.Atomic.{Atomic, alone-Atomic}
use d_barter.Bif.Shell.Money.Distinct.{Distinct, read_values-Distinct}
use d_barter.Bif.Shell.Money.{add_to, insert_value, read_values, credit_body}

abbrev usd : ℕ → Value ℤ
usd i = record { denom = codes "USD"; quant = pos i }

-- An account `jdb`, a superuser `root`, and the denomination USD.
abbrev founded : Memory
founded = write acct_public (string_to_dbt (codes "jdb")) (some (codes "1")) (
    write denom_issuer (string_to_dbt (codes "USD")) (some (codes "root"))
      (set_flags memory (codes "root") 1 no_rows).1)

abbrev credited : Memory
credited =
    (credit_body hundredths memory (codes "jdb") (usd 3 ∷ []) (some (codes "root")) founded).1

abbrev lines : List Bytes
lines = value_to_string hundredths (usd 3) ∷ []

abbrev before : Committed
before = record { data_of = founded; opened = 0 }

alone-Atomic_example :
    let body = credit_body hundredths memory (codes "jdb") (usd 3 ∷ []) (some (codes "root")) in
    Atomic local local-IsServer body founded (alone local 1 body before)
alone-Atomic_example =
    alone-Atomic local local-IsServer 1
      (credit_body hundredths memory (codes "jdb") (usd 3 ∷ []) (some (codes "root"))) founded
      before refl

abbrev began_once : Committed
began_once = record { data_of = founded; opened = 1 }

abbrev args : List Bytes
args = codes "USD{1}" ∷ codes "EUR{1}" ∷ codes "USD{2}" ∷ []

abbrev eur : Value ℤ
eur = record { denom = codes "EUR"; quant = pos 100 }

args_read : read_values hundredths args [] ≡ some (eur ∷ usd 300 ∷ [])
unfolding read_values insert_value add_to string_to_value break_at str_eq string_to_bq read_digits
args_read = refl

read_values-Distinct_example : Distinct hundredths (eur ∷ usd 300 ∷ [])
read_values-Distinct_example =
    read_values-Distinct hundredths args [] (eur ∷ usd 300 ∷ []) tt args_read
