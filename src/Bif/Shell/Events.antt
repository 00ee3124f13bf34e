-- ===== src/Bif/Shell/Events.antt =====
-- The commands of bif/shell.cc on events. The list of a command's arguments begins with its name.
pub mod Closing
mod Tests
pub mod Guarded
pub mod Forgotten
use d_barter.Base.{
  ℕ, refl, Bool, true, false, not, Option, none, some, List, [], ◌∷◌, ◌++◌, ◌&&◌, ◌||◌, ltb,
  if◌then◌else◌, map,
}
use d_barter.Base.Bytes.{Bytes, codes, str_eq, strtoul}
use d_barter.Bom.Store.{Store, on_found, pure as db_pure}
use d_barter.Bom.Text.{format_int}
use d_barter.Bom.Event.{event_name}
use d_barter.Bom.Event
use d_barter.Bom.Event.Reads
use d_barter.Bom.Acct
use d_barter.Bom.Acct.{is_super}
use d_barter.Bom.Holdings
use d_barter.Bif.Shell.{
  Reply, reply, listing, Body, LeavingBody, pure, halt, ◌>>=◌, ◌>>◌, check, refuse_if, leave,
  caller, Server, code_usage, code_noauth, code_invalid, code_notfound,
}
use d_barter.Bif.Shell.Transact.{Command, say, if_authenticated, in_txn}
use d_barter.Bif.Shell.Subject.{must_exist}

-- A message without the end of the transaction in front of it.
pub leave_if : {S : Type 0} → Bool → Reply → LeavingBody S (Unit {0})
leave_if b r = if b then halt (leave refl r) else pure tt

-- The loop over the accounts of an event.
pub permitted : Bytes → ℕ → List Bytes → Bool
permitted me flags [] = false
permitted me flags (u ∷ ul) = str_eq me u || is_super flags || permitted me flags ul

-- The bounds of `event_list`: both may be missing, the upper one alone is not.
pub data Bounds : Type 0 where
  no_bounds : Bounds
  from : ℕ → Bounds
  between : ℕ → ℕ → Bounds

pub in_bounds : Bounds → ℕ → Bool
in_bounds no_bounds id = true
in_bounds (from lb) id = not (ltb id lb)
in_bounds (between lb ub) id = not (ltb id lb) && not (ltb ub id)

pub select : Bounds → List ℕ → List ℕ
select b [] = []
select b (id ∷ el) = if in_bounds b id then id ∷ select b el else select b el

module _ (db : Store) where
  open db use {State}

  -- An unknown recipient leaves the transaction open.
  send_if : Bytes → Bytes → Bytes → Bool → LeavingBody State ℕ
  send_if me to message there = do
    leave_if (not there) (reply code_notfound "recipient not found")
    sent ← check (Reads.event_new_event_sent db me to message)
    _ ← check (Reads.event_new_event_received db me to message)
    pure sent

  pub send_body : Bytes → Bytes → Option Bytes → LeavingBody State ℕ
  unfolding send_if
  send_body to message acct = do
    me ← caller acct
    there ← check (Acct.exists db to)
    send_if me to message there

  pub list_body : ℕ → Bounds → Option Bytes → Body State (List Bytes)
  list_body fuel b acct = do
    me ← caller acct
    el ← check (Holdings.get_event_list db fuel me)
    pure (map format_int (select b el))

  -- Both refusals leave the transaction open.
  pub last_body : Option Bytes → LeavingBody State ℕ
  last_body acct = do
    me ← caller acct
    flags ← check (Acct.get_flags db me)
    leave_if (not (is_super flags)) (reply code_noauth "permission denied")
    last ← check (on_found (Reads.get_last_event db) (λ id. db_pure (some id)) (db_pure none))
    last_or_leave last
    where
      last_or_leave : Option ℕ → LeavingBody State ℕ
      last_or_leave none = halt (leave refl (reply code_notfound "no events in database"))
      last_or_leave (some id) = pure id

  pub read_body : ℕ → Option Bytes → Body State (List Bytes)
  read_body id acct = do
    must_exist (Event.exists db id) "no such event"
    ul ← check (Reads.get_acct_list db id)
    me ← caller acct
    flags ← check (Acct.get_flags db me)
    refuse_if (not (permitted me flags ul)) (reply code_noauth "permission denied")
    type ← check (Event.get_type db id)
    text ← check (Event.get_data db id)
    pure ((codes "id " ++ format_int id) ∷ (codes "type " ++ event_name type) ∷ text ∷ [])

  module _ (sv : Server State) {Z : Type 0} where
    pub cmd_event_send : ℕ → List Bytes → Command sv Z
    cmd_event_send fuel (_ ∷ to ∷ message ∷ []) = if_authenticated sv (
        in_txn sv fuel (λ sh. send_body to message sh.acct)
          (λ id. listing "event sent, event id follows" (format_int id ∷ [])))
    cmd_event_send fuel argv = say sv (reply code_usage "usage: event_send recipient data")

    event_list : ℕ → Bounds → Command sv Z
    event_list fuel b =
        in_txn sv fuel (λ sh. list_body fuel b sh.acct) (listing "event list follows")

    -- A bound of 0 is a text that is no number.
    pub cmd_event_list : ℕ → List Bytes → Command sv Z
    unfolding event_list
    cmd_event_list fuel (_ ∷ []) = if_authenticated sv (event_list fuel no_bounds)
    cmd_event_list fuel (_ ∷ lower ∷ []) = if_authenticated sv (
        if ltb (strtoul lower) 1
        then say sv (reply code_invalid "invalid input (lower-bound)")
        else event_list fuel (from (strtoul lower)))
    cmd_event_list fuel (_ ∷ lower ∷ upper ∷ []) = if_authenticated sv (
        if ltb (strtoul lower) 1
        then say sv (reply code_invalid "invalid input (lower-bound)")
        else if ltb (strtoul upper) 1
        then say sv (reply code_invalid "invalid input (upper-bound)")
        else event_list fuel (between (strtoul lower) (strtoul upper)))
    cmd_event_list fuel argv =
        say sv (reply code_usage "usage: event_list [lower-bound [upper-bound]]")

    pub cmd_event_last : ℕ → List Bytes → Command sv Z
    cmd_event_last fuel (_ ∷ []) = if_authenticated sv (
        in_txn sv fuel (λ sh. last_body sh.acct)
          (λ id. listing "last event follows" (format_int id ∷ [])))
    cmd_event_last fuel argv = say sv (reply code_usage "usage: event_last")

    pub cmd_event_read : ℕ → List Bytes → Command sv Z
    cmd_event_read fuel (_ ∷ number ∷ []) = if_authenticated sv (
        if ltb (strtoul number) 1
        then say sv (reply code_invalid "invalid input")
        else in_txn sv fuel (λ sh. read_body (strtoul number) sh.acct)
            (listing "event attributes follow"))
    cmd_event_read fuel argv = say sv (reply code_usage "usage: event_read event")
