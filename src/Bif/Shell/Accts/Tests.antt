-- ===== src/Bif/Shell/Accts/Tests.antt =====
-- `acct_set` before and after the challenge is answered, on the database in memory.
use d_barter.Base.{ℕ, true, false, none, some, [], ◌∷◌, List}
use d_barter.Base.Bytes.{Bytes, codes}
use d_barter.Bom.Store.Memory.{Memory, no_rows, memory}
use d_barter.Dmath.Integer.Ones.{counts}
use d_barter.Dmath.Quantity.Hundredths.{hundredths}
use d_barter.Bif.Shell.{Shell}
use d_barter.Bif.Shell.Memory.{Committed, local}
use d_barter.Bif.Shell.Accts.{cmd_acct_set}
use d_barter.Bif.Shell.Accts.Unguarded.{SameEffect, cmd_acct_set-ignores_status}

abbrev named : Shell Memory ℕ
named = record { status = false; acct = some (codes "jdb"); challenge = 1; parent = none }

abbrev argv : List Bytes
argv = codes "acct_set" ∷ codes "jdb" ∷ codes "public" ∷ codes "11" ∷ []

abbrev w : Committed
w = record { data_of = no_rows; opened = 0 }

cmd_acct_set-ignores_status_example :
    SameEffect local
      (cmd_acct_set memory local counts hundredths 1 argv (record named { status = true }) w)
      (cmd_acct_set memory local counts hundredths 1 argv named w)
cmd_acct_set-ignores_status_example =
    cmd_acct_set-ignores_status memory local counts hundredths 1 argv named true w
