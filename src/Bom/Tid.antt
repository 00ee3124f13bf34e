-- ===== src/Bom/Tid.antt =====
-- Transaction identifiers (bom/tid.cc): the account that holds one, and the command that it stands for.
pub mod Records
mod Tests
use d_barter.Base.{ℕ, ◌/◌, ◌%◌, Bool, if◌then◌else◌, ◌==◌}
use d_barter.Base.Bytes.{Bytes}
use d_barter.Bom.Store.{tid_acct, tid_command, M, pure, ◌>>=◌, ◌>>◌, Store, or_missing, is_there}
use d_barter.Bom.Text.{string_to_dbt, dbt_to_string}

-- A tid object: its identifier, and what has been loaded of it.
pub record Tid : Type 0 where
  pub id : Bytes
  pub acct : Bytes
  pub command : Bytes

-- TID_ATTR_ACCT and TID_ATTR_COMMAND of a set of attributes.
abbrev pub wants_acct : ℕ → Bool
wants_acct attrs = attrs % 2 == 1

abbrev pub wants_command : ℕ → Bool
wants_command attrs = (attrs / 2) % 2 == 1

module _ (db : Store) where
  open db use {State, get, put, del}

  pub exists : Bytes → M State Bool
  exists id = is_there (get tid_acct (string_to_dbt id))

  pub get_command : Bytes → M State Bytes
  get_command id = do v ← get tid_command (string_to_dbt id); pure (dbt_to_string v)

  pub set_command : Bytes → Bytes → M State (Unit {0})
  set_command id command = put tid_command (string_to_dbt id) (string_to_dbt command)

  pub del_command : Bytes → M State (Unit {0})
  del_command id = or_missing (del tid_command (string_to_dbt id))

  pub get_acct : Bytes → M State Bytes
  get_acct id = do v ← get tid_acct (string_to_dbt id); pure (dbt_to_string v)

  pub set_acct : Bytes → Bytes → M State (Unit {0})
  set_acct id acct = put tid_acct (string_to_dbt id) (string_to_dbt acct)

  pub del_acct : Bytes → M State (Unit {0})
  del_acct id = or_missing (del tid_acct (string_to_dbt id))

  pub destroy : Bytes → M State (Unit {0})
  destroy id = del_command id >> del_acct id

  -- `get` and `set` on the attributes that are asked for, the command first.
  pub get_attrs : ℕ → Tid → M State Tid
  get_attrs attrs o = do
    o ←
        if wants_command attrs
        then (do c ← get_command o.id; pure (record o { command = c }))
        else pure o
    if wants_acct attrs then (do a ← get_acct o.id; pure (record o { acct = a })) else pure o

  pub set_attrs : ℕ → Tid → M State (Unit {0})
  set_attrs attrs o = do
    if wants_command attrs then set_command o.id o.command else pure tt
    if wants_acct attrs then set_acct o.id o.acct else pure tt
