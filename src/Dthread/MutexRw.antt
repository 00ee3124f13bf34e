-- ===== src/Dthread/MutexRw.antt =====
-- The reader-writer lock (dthread/mutex_rw.cc). Each method runs between `m.lock()` and
-- `m.unlock()`, so a method, or what it does up to `c.wait`, is one step on the two counters. The
-- counters are bounded by the number of threads, far below INT_MAX.
pub mod Threads
pub mod Counts
pub mod Exclusion
mod Tests
use d_barter.Base.{
  ℕ, ◌+◌, ◌-◌, Bool, true, false, not, ◌&&◌, ◌||◌, Option, none, some, ◌==◌, if◌then◌else◌,
}

pub record MutexRw : Type 0 where
  pub readers : ℕ
  pub writers : ℕ

-- The constructor.
pub mutex_rw : MutexRw
mutex_rw = record { readers = 0; writers = 0 }

-- What a method returns: 0, EBUSY, or -1.
pub data Result : Type 0 where
  success busy failure : Result

-- Which of the threads that wait on `c` a method wakes.
pub data Wake : Type 0 where
  nobody one all : Wake

-- One round of the loop in `rlock`: `none` is `c.wait`.
pub rlock : MutexRw → Option MutexRw
rlock m = if not (m.writers == 0) then none else some (record m { readers = m.readers + 1 })

pub rlock_nb : MutexRw → Result × MutexRw
rlock_nb m =
    if not (m.writers == 0) then (busy, m) else (success, record m { readers = m.readers + 1 })

pub runlock : MutexRw → Result × MutexRw × Wake
runlock m =
    if not (m.readers == 0)
    then (success, record m { readers = m.readers - 1 }, if m.readers - 1 == 0 then one else nobody)
    else (failure, m, nobody)

-- One round of the loop in `wlock`.
pub wlock : MutexRw → Option MutexRw
wlock m =
    if not (m.readers == 0) || not (m.writers == 0)
    then none
    else some (record m { writers = m.writers + 1 })

pub wlock_nb : MutexRw → Result × MutexRw
wlock_nb m =
    if not (m.readers == 0) || not (m.writers == 0)
    then (busy, m)
    else (success, record m { writers = m.writers + 1 })

pub wunlock : MutexRw → Result × MutexRw × Wake
wunlock m =
    if not (m.writers == 0) then (success, record m { writers = 0 }, all) else (failure, m, nobody)
