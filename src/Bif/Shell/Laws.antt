-- ===== src/Bif/Shell/Laws.antt =====
-- What a shell relies on of the transactions of Berkeley DB. Any call may fail.
use d_barter.Base.{ℕ, suc, ◌-◌, ◌≡◌}
use d_barter.Base.Bytes.{Bytes}
use d_barter.Bom.Store.{Error, ok, err}
use d_barter.Bif.Shell.{Server}

-- As long as no other shell commits in between, a transaction sees what has been committed, a commit
-- makes its view the committed data, and an abort leaves those as they were.
pub record IsServer {S : Type 0} (sv : Server S) : Type 0 where
  pub data_of : sv.World → S
  pub begin_ok : (w : sv.World) (s : S) → (sv.txn_begin w).0 ≡ ok s → s ≡ data_of w
  pub begin_keeps : (w : sv.World) → data_of (sv.txn_begin w).1 ≡ data_of w
  pub commit_ok :
      (s : S) (w : sv.World) → (sv.txn_commit s w).0 ≡ ok tt → data_of (sv.txn_commit s w).1 ≡ s
  pub commit_fails :
      (s : S) (w : sv.World) (e : Error)
      → (sv.txn_commit s w).0 ≡ err e
      → data_of (sv.txn_commit s w).1 ≡ data_of w
  pub abort_keeps : (s : S) (w : sv.World) → data_of (sv.txn_abort s w) ≡ data_of w
  pub signal_keeps : (a b : Bytes) (w : sv.World) → data_of (sv.signal a b w) ≡ data_of w

-- How many transactions are open: a begin opens one, a commit or an abort closes one, and a commit
-- that fails is still to be aborted.
pub record IsCounted {S : Type 0} (sv : Server S) : Type 0 where
  pub open_txns : sv.World → ℕ
  pub begin_opens :
      (w : sv.World) (s : S)
      → (sv.txn_begin w).0 ≡ ok s
      → open_txns (sv.txn_begin w).1 ≡ suc (open_txns w)
  pub begin_fails :
      (w : sv.World) (e : Error)
      → (sv.txn_begin w).0 ≡ err e
      → open_txns (sv.txn_begin w).1 ≡ open_txns w
  pub commit_closes :
      (s : S) (w : sv.World)
      → (sv.txn_commit s w).0 ≡ ok tt
      → open_txns (sv.txn_commit s w).1 ≡ open_txns w - 1
  pub commit_stays :
      (s : S) (w : sv.World) (e : Error)
      → (sv.txn_commit s w).0 ≡ err e
      → open_txns (sv.txn_commit s w).1 ≡ open_txns w
  pub abort_closes : (s : S) (w : sv.World) → open_txns (sv.txn_abort s w) ≡ open_txns w - 1
  pub signal_stays : (a b : Bytes) (w : sv.World) → open_txns (sv.signal a b w) ≡ open_txns w
