-- ===== src/Dthread/MutexRw/Threads.antt =====
-- Threads that share one lock of dthread/mutex_rw.cc, as interleavings of steps. A thread unlocks
-- only what it holds. `pthread_cond_wait` may wake for no reason.
use d_barter.Base.{ℕ, zero, suc, ◌+◌, ◌≡◌, ◌⊎◌, List, [], ◌∷◌, Option, none, some, map}
use d_barter.Dthread.MutexRw.{
  MutexRw, success, Wake, nobody, one, all, mutex_rw, rlock, rlock_nb, runlock, wlock, wlock_nb,
  wunlock,
}

-- Where a thread is: outside, in `c.wait` for reading or writing, woken and about to test again,
-- or holding the lock.
pub data Thread : Type 0 where
  outside : Thread
  asleep_r asleep_w awake_r awake_w : Thread
  reading writing : Thread

pub record System : Type 0 where
  pub lock : MutexRw
  pub threads : List Thread

abbrev pub get_elem? : List Thread → ℕ → Option Thread
get_elem? [] i = none
get_elem? (x ∷ xs) zero = some x
get_elem? (x ∷ xs) (suc i) = get_elem? xs i

abbrev pub set : List Thread → ℕ → Thread → List Thread
set [] i v = []
set (x ∷ xs) zero v = v ∷ xs
set (x ∷ xs) (suc i) v = x ∷ set xs i v

abbrev pub wake : Thread → Thread
wake asleep_r = awake_r
wake asleep_w = awake_w
wake t = t

-- 1 for a thread in one of the two waits.
abbrev pub asleep : Thread → ℕ
asleep asleep_r = 1
asleep asleep_w = 1
asleep t = 0

abbrev pub total : (Thread → ℕ) → List Thread → ℕ
total f [] = 0
total f (t ∷ ts) = f t + total f ts

-- `pthread_cond_signal` wakes a sleeper, if there is one.
pub data Signal (ts : List Thread) : List Thread → Type 0 where
  no_sleeper : total asleep ts ≡ 0 → Signal ts ts
  wakes :
      (j : ℕ) (t : Thread) → get_elem? ts j ≡ some t → asleep t ≡ 1 → Signal ts (set ts j (wake t))

-- What the other threads do on a method's wake-up.
pub data Woken (ts : List Thread) : Wake → List Thread → Type 0 where
  none_woken : Woken ts nobody ts
  one_woken : {us : List Thread} → Signal ts us → Woken ts one us
  all_woken : Woken ts all (map wake ts)

pub data Step (s : System) : System → Type 0 where
  read_enters :
      (i : ℕ) (t : Thread) (m : MutexRw)
      → get_elem? s.threads i ≡ some t
      → (t ≡ outside) ⊎ (t ≡ awake_r)
      → rlock s.lock ≡ some m
      → Step s (record { lock = m; threads = set s.threads i reading })
  read_waits :
      (i : ℕ) (t : Thread)
      → get_elem? s.threads i ≡ some t
      → (t ≡ outside) ⊎ (t ≡ awake_r)
      → rlock s.lock ≡ none
      → Step s (record s { threads = set s.threads i asleep_r })
  read_tries :
      (i : ℕ) (m : MutexRw)
      → get_elem? s.threads i ≡ some outside
      → rlock_nb s.lock ≡ (success, m)
      → Step s (record { lock = m; threads = set s.threads i reading })
  read_leaves :
      (i : ℕ) (m : MutexRw) (w : Wake) (ts : List Thread)
      → get_elem? s.threads i ≡ some reading
      → runlock s.lock ≡ (success, m, w)
      → Woken (set s.threads i outside) w ts
      → Step s (record { lock = m; threads = ts })
  write_enters :
      (i : ℕ) (t : Thread) (m : MutexRw)
      → get_elem? s.threads i ≡ some t
      → (t ≡ outside) ⊎ (t ≡ awake_w)
      → wlock s.lock ≡ some m
      → Step s (record { lock = m; threads = set s.threads i writing })
  write_waits :
      (i : ℕ) (t : Thread)
      → get_elem? s.threads i ≡ some t
      → (t ≡ outside) ⊎ (t ≡ awake_w)
      → wlock s.lock ≡ none
      → Step s (record s { threads = set s.threads i asleep_w })
  write_tries :
      (i : ℕ) (m : MutexRw)
      → get_elem? s.threads i ≡ some outside
      → wlock_nb s.lock ≡ (success, m)
      → Step s (record { lock = m; threads = set s.threads i writing })
  write_leaves :
      (i : ℕ) (m : MutexRw) (w : Wake) (ts : List Thread)
      → get_elem? s.threads i ≡ some writing
      → wunlock s.lock ≡ (success, m, w)
      → Woken (set s.threads i outside) w ts
      → Step s (record { lock = m; threads = ts })
  wakes_for_no_reason :
      (i : ℕ) (t : Thread)
      → get_elem? s.threads i ≡ some t
      → asleep t ≡ 1
      → Step s (record s { threads = set s.threads i (wake t) })

pub data Reach (s : System) : System → Type 0 where
  here : Reach s s
  next : {t u : System} → Reach s t → Step t u → Reach s u

abbrev pub all_outside : ℕ → List Thread
all_outside zero = []
all_outside (suc n) = outside ∷ all_outside n

-- A fresh lock, and `n` threads that have not called it.
abbrev pub start : ℕ → System
start n = record { lock = mutex_rw; threads = all_outside n }
