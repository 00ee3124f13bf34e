-- ===== src/Bif/Shell/Events/Tests.antt =====
-- An event for an account that does not exist, on the database in memory.
use d_barter.Base.{ℕ, ◌≡◌, refl, true, false, none, some, [], ◌∷◌}
use d_barter.Base.Bytes.{codes}
use d_barter.Bom.Store.{ok}
use d_barter.Bom.Store.Memory.{Memory, no_rows, memory}
use d_barter.Bom.Acct
use d_barter.Bif.Shell.{Shell, reply, said, code_notfound}
use d_barter.Bif.Shell.Memory.{Committed, local, local-IsCounted}
use d_barter.Bif.Shell.Events.{cmd_event_send}
use d_barter.Bif.Shell.Events.Forgotten.{cmd_event_send-forgets}

nobody : Acct.exists memory (codes "ann") no_rows ≡ (ok false, no_rows)
unfolding Acct.exists
nobody = refl

cmd_event_send-forgets_example :
    let w : Committed = record { data_of = no_rows; opened = 0 } in
    let sh : Shell Memory ℕ = record {
      status = true;
      acct = some (codes "jdb");
      challenge = 0;
      parent = none;
    } in
    let argv = codes "event_send" ∷ codes "ann" ∷ codes "hello" ∷ [] in
    let out = cmd_event_send memory local 1 argv sh w in
    (out.0 ≡ said (reply code_notfound "recipient not found"))
    × (out.1.0.parent ≡ none)
    × (out.1.1.opened ≡ 1)
cmd_event_send-forgets_example =
    cmd_event_send-forgets memory local local-IsCounted 0 (codes "event_send") (codes "jdb")
      (codes "ann") (codes "hello") 0 (record { data_of = no_rows; opened = 0 }) no_rows no_rows
      refl nobody
