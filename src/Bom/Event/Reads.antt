-- ===== src/Bom/Event/Reads.antt =====
-- Reading and removing an event (bom/event.cc), the last event, and the two events of a message.
pub mod Names
use d_barter.Base.{ℕ, zero, suc, ◌+◌, ◌*◌, if◌then◌else◌, List, [], ◌∷◌, ◌++◌, length}
use d_barter.Base.Bytes.{Bytes, codes}
use d_barter.Bom.Store.{
  event_type, event_acct, acct_event, M, pure, ◌>>=◌, ◌>>◌, Store, get_both, last_record, on_found,
  is_there, on_error,
}
use d_barter.Bom.Text.{dbt_to_string, int32_to_dbt}
use d_barter.Bom.Event.{event_sent, event_received, del_type, del_data, write_event_accts_first}

-- The loop of `get_acct_list`: behind each name the step is the length of the first name.
pub walk_accts : ℕ → ℕ → Bytes → List Bytes
walk_accts first skip [] = []
walk_accts first zero (c ∷ s) = dbt_to_string (c ∷ s) ∷ walk_accts first first s
walk_accts first (suc skip) (c ∷ s) = walk_accts first skip s

pub dbt_to_accts : Bytes → List Bytes
dbt_to_accts v = walk_accts (length (dbt_to_string v)) 0 v

-- `dbt_to_int32`, on a little-endian host.
pub dbt_to_int32 : Bytes → ℕ
dbt_to_int32 (a ∷ b ∷ c ∷ d ∷ _) = a + b * 256 + c * 65536 + d * 16777216
dbt_to_int32 _ = 0

-- `sprintf_alloc(&data, "from %s\nto %s\ndata %s", from.id, to.id, body)`
pub message_text : Bytes → Bytes → Bytes → Bytes
message_text from to body =
    codes "from " ++ (from ++ (codes "\nto " ++ (to ++ (codes "\ndata " ++ body))))

module _ (db : Store) where
  open db use {State, get, del, cursor, c_get, c_del, c_close}

  pub get_acct_list : ℕ → M State (List Bytes)
  get_acct_list id = do v ← get event_acct (int32_to_dbt id); pure (dbt_to_accts v)

  -- The second half of `del_acct_list`: the key is the names of the event, and the data is its number.
  pub del_acct_index : Bytes → Bytes → M State (Unit {0})
  del_acct_index accts key = do
    c ← cursor acct_event
    there ← on_error (is_there (c_get c get_both accts key)) (c_close c)
    if there then (on_error (c_del c) (c_close c) >> c_close c) else c_close c

  pub del_acct_list : ℕ → M State (Unit {0})
  del_acct_list id =
      on_found (get event_acct (int32_to_dbt id))
        (λ accts. del event_acct (int32_to_dbt id) >> del_acct_index accts (int32_to_dbt id))
        (pure tt)

  pub destroy : ℕ → M State (Unit {0})
  destroy id = do del_type db id; del_data db id; del_acct_list id

  pub get_last_event : M State ℕ
  get_last_event = do
    c ← cursor event_type
    (k, v) ← on_error (c_get c last_record [] []) (c_close c)
    c_close c
    pure (dbt_to_int32 k)

  pub event_new_event_received : Bytes → Bytes → Bytes → M State ℕ
  event_new_event_received from to body =
      write_event_accts_first db event_received (message_text from to body) (to ∷ [])

  pub event_new_event_sent : Bytes → Bytes → Bytes → M State ℕ
  event_new_event_sent from to body =
      write_event_accts_first db event_sent (message_text from to body) (from ∷ [])
