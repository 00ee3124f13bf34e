-- ===== src/Dthread/MutexRw/Counts.antt =====
-- The threads that share a lock of dthread/mutex_rw.cc, counted by what they do, and what ties the counts
-- to the counters of the lock.
use d_barter.Base.{
  ℕ, zero, suc, ◌+◌, ◌≤◌, ◌<◌, ◌≡◌, refl, ◌⊎◌, inl, inr, List, [], ◌∷◌, some, map, arith,
}
use d_barter.Dthread.MutexRw.{MutexRw}
use d_barter.Dthread.MutexRw.Threads.{
  Thread, outside, asleep_r, asleep_w, awake_r, awake_w, reading, writing, System, get_elem?, set,
  wake, asleep, total, Signal, no_sleeper, wakes,
}

abbrev pub is_reading : Thread → ℕ
is_reading reading = 1
is_reading t = 0

abbrev pub is_writing : Thread → ℕ
is_writing writing = 1
is_writing t = 0

abbrev pub is_asleep_r : Thread → ℕ
is_asleep_r asleep_r = 1
is_asleep_r t = 0

abbrev pub is_awake : Thread → ℕ
is_awake awake_r = 1
is_awake awake_w = 1
is_awake t = 0

pub total-set :
    (f : Thread → ℕ) (ts : List Thread) (i : ℕ) (a b : Thread)
    → get_elem? ts i ≡ some a
    → total f (set ts i b) + f a ≡ total f ts + f b
total-set f [] i a b e = cc
total-set f (t ∷ ts) zero a b e = ground arith
total-set f (t ∷ ts) (suc i) a b e = omega (arith, total-set f ts i a b e)

-- What waking everybody does to the counts.
pub map-wake_counts :
    (ts : List Thread)
    → (total is_reading (map wake ts) ≡ total is_reading ts)
      × (total is_writing (map wake ts) ≡ total is_writing ts)
      × (total asleep (map wake ts) ≡ 0)
map-wake_counts [] = (refl, refl, refl)
map-wake_counts (t ∷ ts) = ground (arith, map-wake_counts ts)

pub total-asleep_r-le : (ts : List Thread) → total is_asleep_r ts ≤ total asleep ts
total-asleep_r-le [] = omega arith
total-asleep_r-le (t ∷ ts) = ground (arith, total-asleep_r-le ts)

-- The counters count the holders; a writer is alone; a reader sleeps only under a writer; and while
-- the lock is free, a sleeper leaves somebody awake who will test again.
pub record IsSound (s : System) : Type 0 where
  pub counts_readers : total is_reading s.threads ≡ s.lock.readers
  pub counts_writers : total is_writing s.threads ≡ s.lock.writers
  pub alone : (s.lock.writers ≡ 0) ⊎ ((s.lock.writers ≡ 1) × (s.lock.readers ≡ 0))
  pub reader_sleeps : (total is_asleep_r s.threads ≡ 0) ⊎ (0 < s.lock.writers)
  pub somebody_awake :
      (total asleep s.threads ≡ 0)
      ⊎ (0 < s.lock.readers + s.lock.writers + total is_awake s.threads)

abbrev pub Change : (Thread → ℕ) → List Thread → List Thread → Thread → Thread → Type 0
Change f ts us a b = total f us + f a ≡ total f ts + f b

-- What replacing one thread does to the counts.
pub record Counts (ts us : List Thread) (a b : Thread) : Type 0 where
  pub c_reading : Change is_reading ts us a b
  pub c_writing : Change is_writing ts us a b
  pub c_asleep_r : Change is_asleep_r ts us a b
  pub c_asleep : Change asleep ts us a b
  pub c_awake : Change is_awake ts us a b

pub set-Counts :
    (ts : List Thread) (i : ℕ) (a b : Thread) → get_elem? ts i ≡ some a → Counts ts (set ts i b) a b
set-Counts ts i a b e = record {
  c_reading = total-set is_reading ts i a b e;
  c_writing = total-set is_writing ts i a b e;
  c_asleep_r = total-set is_asleep_r ts i a b e;
  c_asleep = total-set asleep ts i a b e;
  c_awake = total-set is_awake ts i a b e;
}

-- One sleeper that wakes.
pub wake-IsSound :
    (m : MutexRw) (ts us : List Thread) (t : Thread)
    → asleep t ≡ 1
    → Counts ts us t (wake t)
    → IsSound (record { lock = m; threads = ts })
    → IsSound (record { lock = m; threads = us })
wake-IsSound m ts us asleep_r e c v = ground arith
wake-IsSound m ts us asleep_w e c v = ground arith
wake-IsSound m ts us outside e c v = cc
wake-IsSound m ts us awake_r e c v = cc
wake-IsSound m ts us awake_w e c v = cc
wake-IsSound m ts us reading e c v = cc
wake-IsSound m ts us writing e c v = cc

-- What a signal does to the counts.
pub record Signalled (ts us : List Thread) : Type 0 where
  pub same_reading : total is_reading us ≡ total is_reading ts
  pub same_writing : total is_writing us ≡ total is_writing ts
  pub fewer_asleep_r : total is_asleep_r us ≤ total is_asleep_r ts
  pub awake_or_none : (total asleep us ≡ 0) ⊎ (0 < total is_awake us)

pub wake-Signalled :
    (ts us : List Thread) (t : Thread) → asleep t ≡ 1 → Counts ts us t (wake t) → Signalled ts us
wake-Signalled ts us asleep_r e c = ground arith
wake-Signalled ts us asleep_w e c = ground arith
wake-Signalled ts us outside e c = cc
wake-Signalled ts us awake_r e c = cc
wake-Signalled ts us awake_w e c = cc
wake-Signalled ts us reading e c = cc
wake-Signalled ts us writing e c = cc

pub Signal-Signalled : {ts us : List Thread} → Signal ts us → Signalled ts us
Signal-Signalled (no_sleeper e) = ground arith
Signal-Signalled {ts} (wakes j t e a) =
    wake-Signalled ts (set ts j (wake t)) t a (set-Counts ts j t (wake t) e)

pub total-ge_one :
    (f : Thread → ℕ) (ts : List Thread) (i : ℕ) (a : Thread)
    → get_elem? ts i ≡ some a
    → f a ≤ total f ts
total-ge_one f [] i a e = cc
total-ge_one f (t ∷ ts) zero a e = ground arith
total-ge_one f (t ∷ ts) (suc i) a e = omega (arith, total-ge_one f ts i a e)

pub total-ge_two :
    (f : Thread → ℕ) (ts : List Thread) (i j : ℕ) (a b : Thread)
    → get_elem? ts i ≡ some a
    → get_elem? ts j ≡ some b
    → (i ≡ j) ⊎ (f a + f b ≤ total f ts)
total-ge_two f [] i j a b e d = cc
total-ge_two f (t ∷ ts) zero zero a b e d = inl refl
total-ge_two f (t ∷ ts) zero (suc j) a b e d = inr (ground (arith, total-ge_one f ts j b d))
total-ge_two f (t ∷ ts) (suc i) zero a b e d = inr (ground (arith, total-ge_one f ts i a e))
total-ge_two f (t ∷ ts) (suc i) (suc j) a b e d = ground (arith, total-ge_two f ts i j a b e d)
