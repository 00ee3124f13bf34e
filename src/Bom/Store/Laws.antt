-- ===== src/Bom/Store/Laws.antt =====
-- What the code of bom/ relies on of Berkeley DB: a read returns what stands under the key, a write
-- or a removal that succeeds has its effect there and none elsewhere. Any call may fail.
use d_barter.Base.{Bool, true, ℕ, ◌<◌, ◌≤◌, ◌≡◌, ◌≢◌, ◌⊎◌, false, Option, none, some}
use d_barter.Base.Bytes.{Bytes}
use d_barter.Bom.Store.{
  Table, is_dup, not_found, out_of_fuel, next_dup, next_record, ok, err, Store, Position, Place,
}

-- The moves that go on from where the cursor is.
abbrev pub is_next : Position → Bool
is_next next_record = true
is_next next_dup = true
is_next p = false

pub record IsStore (db : Store) : Type 1 where
  -- What stands under a key in a table without duplicates.
  pub content : Table → Bytes → db.State → Option Bytes
  pub cursor_table : db.Cursor → Table
  pub get_keeps :
      (t : Table) (k : Bytes) (s : db.State) (u : Table) (j : Bytes)
      → content u j (db.get t k s).1 ≡ content u j s
  pub get_ok :
      (t : Table) (k v : Bytes) (s : db.State)
      → is_dup t ≡ false
      → (db.get t k s).0 ≡ ok v
      → content t k s ≡ some v
  pub get_missing :
      (t : Table) (k : Bytes) (s : db.State)
      → is_dup t ≡ false
      → (db.get t k s).0 ≡ err not_found
      → content t k s ≡ none
  pub put_ok :
      (t : Table) (k v : Bytes) (s : db.State)
      → is_dup t ≡ false
      → (db.put t k v s).0 ≡ ok tt
      → content t k (db.put t k v s).1 ≡ some v
  pub put_others :
      (t : Table) (k v : Bytes) (s : db.State) (u : Table) (j : Bytes)
      → (u ≢ t) ⊎ (j ≢ k)
      → content u j (db.put t k v s).1 ≡ content u j s
  pub del_ok :
      (t : Table) (k : Bytes) (s : db.State)
      → is_dup t ≡ false
      → (db.del t k s).0 ≡ ok tt
      → content t k (db.del t k s).1 ≡ none
  pub del_missing :
      (t : Table) (k : Bytes) (s : db.State)
      → is_dup t ≡ false
      → (db.del t k s).0 ≡ err not_found
      → content t k (db.del t k s).1 ≡ none
  pub del_others :
      (t : Table) (k : Bytes) (s : db.State) (u : Table) (j : Bytes)
      → (u ≢ t) ⊎ (j ≢ k)
      → content u j (db.del t k s).1 ≡ content u j s
  pub append_others :
      (t : Table) (v : Bytes) (s : db.State) (u : Table) (j : Bytes)
      → u ≢ t
      → content u j (db.append t v s).1 ≡ content u j s
  pub cursor_ok :
      (t : Table) (s : db.State) (c : db.Cursor) → (db.cursor t s).0 ≡ ok c → cursor_table c ≡ t
  pub cursor_keeps :
      (t : Table) (s : db.State) (u : Table) (j : Bytes)
      → content u j (db.cursor t s).1 ≡ content u j s
  pub c_get_keeps :
      (c : db.Cursor) (p : Position) (k v : Bytes) (s : db.State) (u : Table) (j : Bytes)
      → content u j (db.c_get c p k v s).1 ≡ content u j s
  pub c_put_others :
      (c : db.Cursor) (p : Place) (k v : Bytes) (s : db.State) (u : Table) (j : Bytes)
      → u ≢ cursor_table c
      → content u j (db.c_put c p k v s).1 ≡ content u j s
  pub c_del_others :
      (c : db.Cursor) (s : db.State) (u : Table) (j : Bytes)
      → u ≢ cursor_table c
      → content u j (db.c_del c s).1 ≡ content u j s
  pub c_close_keeps :
      (c : db.Cursor) (s : db.State) (u : Table) (j : Bytes)
      → content u j (db.c_close c s).1 ≡ content u j s
  -- Behind a cursor is a finite number of records, and a step to the next leaves fewer.
  pub c_left : db.Cursor → db.State → ℕ
  pub c_get_next :
      (c : db.Cursor) (p : Position) (k v : Bytes) (s : db.State) (kv : Bytes × Bytes)
      → is_next p ≡ true
      → (db.c_get c p k v s).0 ≡ ok kv
      → c_left c (db.c_get c p k v s).1 < c_left c s
  pub c_del_left : (c : db.Cursor) (s : db.State) → c_left c (db.c_del c s).1 ≤ c_left c s
  -- No call gives the result that stands for spent fuel.
  pub cursor_runs : (t : Table) (s : db.State) → (db.cursor t s).0 ≢ err out_of_fuel
  pub c_get_runs :
      (c : db.Cursor) (p : Position) (k v : Bytes) (s : db.State)
      → (db.c_get c p k v s).0 ≢ err out_of_fuel
  pub c_del_runs : (c : db.Cursor) (s : db.State) → (db.c_del c s).0 ≢ err out_of_fuel
  pub c_close_runs : (c : db.Cursor) (s : db.State) → (db.c_close c s).0 ≢ err out_of_fuel
