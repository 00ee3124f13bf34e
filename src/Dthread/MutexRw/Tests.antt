-- ===== src/Dthread/MutexRw/Tests.antt =====
-- Two threads on one lock: the first takes it for writing, the second waits.
use d_barter.Base.{◌<◌, ◌≢◌, refl, inl, [], ◌∷◌, arith}
use d_barter.Dthread.MutexRw.{mutex_rw, rlock, wlock, runlock, one}
use d_barter.Dthread.MutexRw.Threads.{
  outside, asleep_r, asleep_w, awake_w, reading, writing, System, total, read_enters, read_waits,
  read_leaves, write_enters, write_waits, wakes, one_woken, Reach, here, next, start,
}
use d_barter.Dthread.MutexRw.Counts.{is_awake}
use d_barter.Dthread.MutexRw.Exclusion.{writing-alone, asleep-some_awake}

abbrev one_writes : System
one_writes = record { lock = record { readers = 0; writers = 1 }; threads = writing ∷ outside ∷ [] }

abbrev one_waits : System
one_waits = record { lock = record { readers = 0; writers = 1 }; threads = writing ∷ asleep_r ∷ [] }

Reach-one_writes : Reach (start 2) one_writes
unfolding wlock mutex_rw
Reach-one_writes = next here (write_enters 0 outside _ refl (inl refl) refl)

Reach-one_waits : Reach (start 2) one_waits
unfolding rlock
Reach-one_waits = next Reach-one_writes (read_waits 1 outside refl (inl refl) refl)

writing-alone_example : (asleep_r ≢ reading) × (asleep_r ≢ writing)
writing-alone_example =
    writing-alone 2 one_waits 0 1 asleep_r Reach-one_waits refl refl (λ e. omega arith)

-- A reader leaves while two threads wait to write: one of them is woken, the other sleeps on.
abbrev one_reads : System
one_reads = record {
  lock = record { readers = 1; writers = 0 };
  threads = reading ∷ asleep_w ∷ asleep_w ∷ [];
}

abbrev one_left : System
one_left = record { lock = mutex_rw; threads = outside ∷ awake_w ∷ asleep_w ∷ [] }

Reach-one_reads : Reach (start 3) one_reads
unfolding rlock wlock mutex_rw
Reach-one_reads =
    next
      (next (next here (read_enters 0 outside _ refl (inl refl) refl))
        (write_waits 1 outside refl (inl refl) refl))
      (write_waits 2 outside refl (inl refl) refl)

Reach-one_left : Reach (start 3) one_left
unfolding runlock mutex_rw
Reach-one_left =
    next Reach-one_reads (read_leaves 0 _ one _ refl refl (one_woken (wakes 1 asleep_w refl refl)))

asleep-some_awake_example : 0 < total is_awake one_left.threads
asleep-some_awake_example = asleep-some_awake 3 one_left 2 asleep_w Reach-one_left refl refl refl
