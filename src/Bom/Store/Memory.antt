-- ===== src/Bom/Store/Memory.antt =====
-- A database in memory as an instance of the calls of Berkeley DB, which shows that the laws of
-- `IsStore` can hold. A table with duplicates keeps the last entry of a key.
use mathlib.Core.Logic.{ite, if_pos, if_neg}
use d_barter.Base.{
  true, Bool, ℕ, suc, ◌≡◌, ◌≢◌, refl, ◌⊎◌, inl, inr, false, Option, none, some, if◌then◌else◌,
  arith, Bool-cases,
}
use d_barter.Base.Bytes.{Bytes, str_eq, str_eq_iff}
use d_barter.Bom.Store.{
  Table, not_found, out_of_fuel, Position, next_dup, next_record, ok, err, M, Store,
}
use d_barter.Bom.Store.Laws.{is_next, IsStore}
use d_barter.Bom.Text.{int32_to_dbt}

pub record Memory : Type 0 where
  pub rows : Table → Bytes → Option Bytes
  pub next : ℕ

abbrev pub no_rows : Memory
no_rows = record { rows = λ t k. none; next = 1 }

unfoldable pub Table-discrete : Discrete Table
Table-discrete = hlevel

abbrev pub update :
    (Table → Bytes → Option Bytes) → Table → Bytes → Option Bytes → Table → Bytes → Option Bytes
update rows t k v u j = ite (Table-discrete u t) (if str_eq j k then v else rows u j) (rows u j)

abbrev pub write : Table → Bytes → Option Bytes → Memory → Memory
write t k v s = record s { rows = update s.rows t k v }

abbrev pub read : Table → Bytes → M Memory Bytes
read t k s = elim (s.rows t k) [ none ↦ (err not_found, s) | some v ↦ (ok v, s) ]

abbrev pub look : Table → Position → Bytes → M Memory (Bytes × Bytes)
look t next_dup k s = (err not_found, s)
look t next_record k s = (err not_found, s)
look t p k s = elim (s.rows t k) [ none ↦ (err not_found, s) | some w ↦ (ok (k, w), s) ]

abbrev pub matches : Option Bytes → Bytes → Bool
matches none v = false
matches (some w) v = str_eq w v

abbrev pub memory : Store
memory = record {
  State = Memory;
  Cursor = Table;
  get = read;
  get_pair = λ t k v s. if matches (s.rows t k) v then (ok v, s) else (err not_found, s);
  put = λ t k v s. (ok tt, write t k (some v) s);
  append =
      λ t v s. (ok s.next, record (write t (int32_to_dbt s.next) (some v) s) { next = suc s.next });
  del = λ t k s. (ok tt, write t k none s);
  cursor = λ t s. (ok t, s);
  c_get = λ t p k v s. look t p k s;
  c_put = λ t p k v s. (ok tt, write t k (some v) s);
  c_del = λ t s. (ok tt, s);
  c_close = λ t s. (ok tt, s);
}

update_self :
    (rows : Table → Bytes → Option Bytes) (t : Table) (k : Bytes) (v : Option Bytes)
    → update rows t k v t k ≡ v
update_self rows t k v = rw (if_pos _ refl) (rw ((str_eq_iff k k).1 refl))

update_others :
    (rows : Table → Bytes → Option Bytes) (t : Table) (k : Bytes) (v : Option Bytes) (u : Table)
    (j : Bytes)
    → (u ≢ t) ⊎ (j ≢ k)
    → update rows t k v u j ≡ rows u j
update_others rows t k v u j h = elim (Table-discrete u t) [
  | yes e ↦ rw (if_pos _ e) (rw (other_key h e))
  | no e ↦ rw (if_neg _ e)
]
  where
    other_key : (u ≢ t) ⊎ (j ≢ k) → u ≡ t → str_eq j k ≡ false
    other_key (inl d) e = absurd (d e)
    other_key (inr d) e = elim (Bool-cases (str_eq j k)) [
      | inl q ↦ absurd (d ((str_eq_iff j k).0 q))
      | inr q ↦ q
    ]

read-ok : (t : Table) (k v : Bytes) (s : Memory) → (read t k s).0 ≡ ok v → s.rows t k ≡ some v
read-ok t k v s h = ground arith

read-missing :
    (t : Table) (k : Bytes) (s : Memory) → (read t k s).0 ≡ err not_found → s.rows t k ≡ none
read-missing t k s h = ground arith

read_keeps :
    (t : Table) (k : Bytes) (s : Memory) (u : Table) (j : Bytes)
    → (read t k s).1.rows u j ≡ s.rows u j
read_keeps t k s u j = ground arith

look_keeps :
    (t : Table) (p : Position) (k : Bytes) (s : Memory) (u : Table) (j : Bytes)
    → (look t p k s).1.rows u j ≡ s.rows u j
look_keeps t p k s u j = ground arith

look_runs : (t : Table) (p : Position) (k : Bytes) (s : Memory) → (look t p k s).0 ≢ err out_of_fuel
look_runs t p k s e = ground arith

look-next :
    (t : Table) (p : Position) (k : Bytes) (s : Memory) (kv : Bytes × Bytes)
    → is_next p ≡ true
    → (look t p k s).0 ≢ ok kv
look-next t p k s kv n e = ground arith

pub memory-IsStore : IsStore memory
memory-IsStore = record {
  content = λ t k s. s.rows t k;
  cursor_table = λ c. c;
  get_keeps = read_keeps;
  get_ok = λ t k v s _ h. read-ok t k v s h;
  get_missing = λ t k s _ h. read-missing t k s h;
  put_ok = λ t k v s _ _. update_self s.rows t k (some v);
  put_others = λ t k v s u j h. update_others s.rows t k (some v) u j h;
  del_ok = λ t k s _ _. update_self s.rows t k none;
  del_missing = λ t k s _ h. cc;
  del_others = λ t k s u j h. update_others s.rows t k none u j h;
  append_others = λ t v s u j h. update_others s.rows t (int32_to_dbt s.next) (some v) u j (inl h);
  cursor_ok = λ t s c h. cc;
  cursor_keeps = λ t s u j. refl;
  c_get_keeps = λ c p k v s u j. look_keeps c p k s u j;
  c_put_others = λ c p k v s u j h. update_others s.rows c k (some v) u j (inl h);
  c_del_others = λ c s u j h. refl;
  c_close_keeps = λ c s u j. refl;
  c_left = λ c s. 0;
  c_get_next = λ c p k v s kv n e. absurd (look-next c p k s kv n e);
  c_del_left = λ c s. omega arith;
  cursor_runs = λ t s e. cc;
  c_get_runs = λ c p k v s e. look_runs c p k s e;
  c_del_runs = λ c s e. cc;
  c_close_runs = λ c s e. cc;
}

pub content-no_rows : (t : Table) (k : Bytes) → memory-IsStore.content t k no_rows ≡ none
unfolding memory-IsStore
content-no_rows t k = refl

pub c_left-memory : (t : Table) (s : Memory) → memory-IsStore.c_left t s ≡ 0
unfolding memory-IsStore
c_left-memory t s = refl
