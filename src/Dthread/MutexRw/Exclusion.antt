-- ===== src/Dthread/MutexRw/Exclusion.antt =====
-- Readers and a writer never hold the lock of dthread/mutex_rw.cc together, and nobody sleeps on a
-- free lock.
use d_barter.Base.{
  ℕ, zero, suc, ◌+◌, ◌<◌, ◌≡◌, ◌≢◌, refl, ◌⊎◌, inl, inr, List, none, some, map, arith,
}
use d_barter.Dthread.MutexRw.{
  MutexRw, success, Wake, mutex_rw, rlock, rlock_nb, runlock, wlock, wlock_nb, wunlock,
}
use d_barter.Dthread.MutexRw.Threads.{
  Thread, outside, asleep_r, asleep_w, awake_r, awake_w, reading, writing, System, get_elem?, set,
  wake, asleep, total, Woken, none_woken, one_woken, all_woken, Step, read_enters, read_waits,
  read_tries, read_leaves, write_enters, write_waits, write_tries, write_leaves,
  wakes_for_no_reason, Reach, here, next, all_outside, start,
}
use d_barter.Dthread.MutexRw.Counts.{
  is_reading, is_writing, is_asleep_r, is_awake, map-wake_counts, total-asleep_r-le, IsSound,
  Counts, set-Counts, wake-IsSound, Signal-Signalled, total-ge_one, total-ge_two,
}

module _ (s : System) (v : IsSound s) where
  read_enters-IsSound :
      (us : List Thread) (t : Thread) (m : MutexRw)
      → (t ≡ outside) ⊎ (t ≡ awake_r)
      → Counts s.threads us t reading
      → rlock s.lock ≡ some m
      → IsSound (record { lock = m; threads = us })
  unfolding rlock
  read_enters-IsSound us outside m o c e = ground arith
  read_enters-IsSound us awake_r m o c e = ground arith
  read_enters-IsSound us t m o c e = ground arith

  read_waits-IsSound :
      (us : List Thread) (t : Thread)
      → (t ≡ outside) ⊎ (t ≡ awake_r)
      → Counts s.threads us t asleep_r
      → rlock s.lock ≡ none
      → IsSound (record s { threads = us })
  unfolding rlock
  read_waits-IsSound us outside o c e = ground arith
  read_waits-IsSound us awake_r o c e = ground arith
  read_waits-IsSound us t o c e = ground arith

  write_enters-IsSound :
      (us : List Thread) (t : Thread) (m : MutexRw)
      → (t ≡ outside) ⊎ (t ≡ awake_w)
      → Counts s.threads us t writing
      → wlock s.lock ≡ some m
      → IsSound (record { lock = m; threads = us })
  unfolding wlock
  write_enters-IsSound us outside m o c e = ground arith
  write_enters-IsSound us awake_w m o c e = ground arith
  write_enters-IsSound us t m o c e = ground arith

  write_waits-IsSound :
      (us : List Thread) (t : Thread)
      → (t ≡ outside) ⊎ (t ≡ awake_w)
      → Counts s.threads us t asleep_w
      → wlock s.lock ≡ none
      → IsSound (record s { threads = us })
  unfolding wlock
  write_waits-IsSound us outside o c e = ground arith
  write_waits-IsSound us awake_w o c e = ground arith
  write_waits-IsSound us t o c e = ground arith

  read_leaves-IsSound :
      (us ts : List Thread) (m : MutexRw) (w : Wake)
      → Counts s.threads us reading outside
      → runlock s.lock ≡ (success, m, w)
      → Woken us w ts
      → IsSound (record { lock = m; threads = ts })
  unfolding runlock
  read_leaves-IsSound us _ m _ c e none_woken = ground arith
  read_leaves-IsSound us ts m _ c e (one_woken g) = ground (arith, Signal-Signalled g)
  read_leaves-IsSound us _ m _ c e all_woken = ground arith

  write_leaves-IsSound :
      (us ts : List Thread) (m : MutexRw) (w : Wake)
      → Counts s.threads us writing outside
      → wunlock s.lock ≡ (success, m, w)
      → Woken us w ts
      → IsSound (record { lock = m; threads = ts })
  unfolding wunlock
  write_leaves-IsSound us _ m _ c e none_woken = ground arith
  write_leaves-IsSound us ts m _ c e (one_woken g) = ground arith
  write_leaves-IsSound us _ m _ c e all_woken =
      ground (arith, map-wake_counts us, total-asleep_r-le (map wake us))

rlock_nb-rlock : (m n : MutexRw) → rlock_nb m ≡ (success, n) → rlock m ≡ some n
unfolding rlock_nb rlock
rlock_nb-rlock m n e = ground arith

wlock_nb-wlock : (m n : MutexRw) → wlock_nb m ≡ (success, n) → wlock m ≡ some n
unfolding wlock_nb wlock
wlock_nb-wlock m n e = ground arith

pub Step-IsSound : {s t : System} → Step s t → IsSound s → IsSound t
Step-IsSound {s} (read_enters i t m e o l) v =
    read_enters-IsSound s v _ t m o (set-Counts s.threads i t reading e) l
Step-IsSound {s} (read_waits i t e o l) v =
    read_waits-IsSound s v _ t o (set-Counts s.threads i t asleep_r e) l
Step-IsSound {s} (read_tries i m e l) v =
    read_enters-IsSound s v _ outside m (inl refl) (set-Counts s.threads i outside reading e)
      (rlock_nb-rlock s.lock m l)
Step-IsSound {s} (read_leaves i m w ts e l k) v =
    read_leaves-IsSound s v _ ts m w (set-Counts s.threads i reading outside e) l k
Step-IsSound {s} (write_enters i t m e o l) v =
    write_enters-IsSound s v _ t m o (set-Counts s.threads i t writing e) l
Step-IsSound {s} (write_waits i t e o l) v =
    write_waits-IsSound s v _ t o (set-Counts s.threads i t asleep_w e) l
Step-IsSound {s} (write_tries i m e l) v =
    write_enters-IsSound s v _ outside m (inl refl) (set-Counts s.threads i outside writing e)
      (wlock_nb-wlock s.lock m l)
Step-IsSound {s} (write_leaves i m w ts e l k) v =
    write_leaves-IsSound s v _ ts m w (set-Counts s.threads i writing outside e) l k
Step-IsSound {s} (wakes_for_no_reason i t e a) v =
    wake-IsSound s.lock s.threads (set s.threads i (wake t)) t a
      (set-Counts s.threads i t (wake t) e) v

total-all_outside : (f : Thread → ℕ) (n : ℕ) → f outside ≡ 0 → total f (all_outside n) ≡ 0
total-all_outside f zero e = refl
total-all_outside f (suc n) e = omega (arith, total-all_outside f n e)

start-IsSound : (n : ℕ) → IsSound (start n)
unfolding mutex_rw
start-IsSound n = record {
  counts_readers = total-all_outside is_reading n refl;
  counts_writers = total-all_outside is_writing n refl;
  alone = inl refl;
  reader_sleeps = inl (total-all_outside is_asleep_r n refl);
  somebody_awake = inl (total-all_outside asleep n refl);
}

Reach-IsSound : {s t : System} → IsSound s → Reach s t → IsSound t
Reach-IsSound v here = v
Reach-IsSound v (next r st) = Step-IsSound st (Reach-IsSound v r)

-- Whatever the threads do with a fresh lock: while one of them writes, no other reads or writes.
pub writing-alone :
    (n : ℕ) (s : System) (i j : ℕ) (t : Thread)
    → Reach (start n) s
    → get_elem? s.threads i ≡ some writing
    → get_elem? s.threads j ≡ some t
    → i ≢ j
    → (t ≢ reading) × (t ≢ writing)
writing-alone n s i j t r e d ne = (λ p. ne (same (inl p)), λ p. ne (same (inr p)))
  where
    same : (t ≡ reading) ⊎ (t ≡ writing) → i ≡ j
    same k = ground (
      arith,
      Reach-IsSound (start-IsSound n) r,
      total-ge_one is_writing s.threads i writing e,
      total-ge_one is_reading s.threads j t d,
      total-ge_two is_writing s.threads i j writing t e d,
    )

-- No wake-up is lost: if a thread waits for the lock while nobody holds it, then some thread has been
-- woken and will test again.
pub asleep-some_awake :
    (n : ℕ) (s : System) (i : ℕ) (t : Thread)
    → Reach (start n) s
    → get_elem? s.threads i ≡ some t
    → asleep t ≡ 1
    → total is_reading s.threads + total is_writing s.threads ≡ 0
    → 0 < total is_awake s.threads
asleep-some_awake n s i t r e a free =
    ground (arith, Reach-IsSound (start-IsSound n) r, total-ge_one asleep s.threads i t e)
