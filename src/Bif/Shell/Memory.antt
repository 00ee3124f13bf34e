-- ===== src/Bif/Shell/Memory.antt =====
-- Transactions on the database in memory as an instance of those of Berkeley DB, which shows that the
-- laws of `IsServer` and `IsCounted` can hold.
use d_barter.Base.{ℕ, suc, ◌-◌, ◌≡◌, refl, sym}
use d_barter.Bom.Store.{Error, ok, err}
use d_barter.Bom.Acct.Balance.{ok-injective}
use d_barter.Bom.Store.Memory.{Memory}
use d_barter.Bif.Shell.{Server}
use d_barter.Bif.Shell.Laws.{IsServer, IsCounted}

pub record Committed : Type 0 where
  pub data_of : Memory
  pub opened : ℕ

abbrev pub close_one : Committed → Committed
close_one w = record w { opened = w.opened - 1 }

abbrev pub local : Server Memory
local = record {
  World = Committed;
  txn_begin = λ w. (ok w.data_of, record w { opened = suc w.opened });
  txn_commit = λ s w. (ok tt, close_one (record w { data_of = s }));
  txn_abort = λ s w. close_one w;
  signal = λ a b w. w;
}

-- A call that succeeds has not failed.
pub ok-ne-err : {A : Type 0} {a : A} {x : Error} → ¬ ok a ≡ err x
ok-ne-err e = cc

abbrev pub local-IsServer : IsServer local
local-IsServer = record {
  data_of = λ w. w.data_of;
  begin_ok = λ w s e. sym (ok-injective e);
  begin_keeps = λ w. refl;
  commit_ok = λ s w e. refl;
  commit_fails = λ s w x e. absurd (ok-ne-err e);
  abort_keeps = λ s w. refl;
  signal_keeps = λ a b w. refl;
}

abbrev pub local-IsCounted : IsCounted local
local-IsCounted = record {
  open_txns = λ w. w.opened;
  begin_opens = λ w s e. refl;
  begin_fails = λ w x e. absurd (ok-ne-err e);
  commit_closes = λ s w e. refl;
  commit_stays = λ s w x e. absurd (ok-ne-err e);
  abort_closes = λ s w. refl;
  signal_stays = λ a b w. refl;
}
