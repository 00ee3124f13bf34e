-- ===== src/Bif/Shell/Notes.antt =====
-- The commands of bif/shell.cc on notes. The list of a command's arguments begins with its name.
pub mod Closing
pub mod Guarded
use d_barter.Base.{ℕ, not, Option, none, some, List, [], ◌∷◌, ◌++◌, map}
use d_barter.Base.Bytes.{Bytes, codes, str_eq}
use d_barter.Bom.Store.{Store}
use d_barter.Bom.Value.{Value, value_to_string}
use d_barter.Bom.Event.{event_new_note_create}
use d_barter.Bom.Acct
use d_barter.Bom.Note
use d_barter.Bom.Holdings
use d_barter.Dmath.Integer.{Integer}
use d_barter.Dmath.Quantity.{Quantity}
use d_barter.Bif.Shell.{
  reply, listing, Body, pure, halt, ◌>>=◌, ◌>>◌, check, refuse_if, refuse, Shell, caller, Server,
  code_usage, code_noauth, code_db, code_invalid, code_insufficient,
}
use d_barter.Bif.Shell.Transact.{Command, say, if_authenticated, in_txn}
use d_barter.Bif.Shell.Subject.{must_exist, subject}
use d_barter.Bif.Shell.Money.{read_values, credit_all}

module _ (db : Store) (z : Integer) (n : Quantity) where
  open db use {State}

  -- `w.quant < v->quant`: inside a transaction of the client the funds are looked at before anything is written.
  pub covered : Bytes → List (Value n.Q) → Body State (Unit {0})
  covered me [] = pure tt
  covered me (v ∷ vl) = do
    w ← check (Acct.get_value db n me (record { denom = v.denom; quant = n.zero }))
    refuse_if (n.is_neg (n.sub w.quant v.quant)) (reply code_insufficient "insufficient funds")
    covered me vl

  -- Each value goes from the account to the note.
  pub fill_note : Bytes → Bytes → List (Value n.Q) → Body State (Unit {0})
  fill_note me note [] = pure tt
  fill_note me note (v ∷ vl) = do
    paid ← check (Acct.debit db n me v)
    refuse_if (not paid) (reply code_insufficient "insufficient funds")
    check (Note.set_value db n note v)
    fill_note me note vl

  -- The challenge that has been made, if one has.
  pub protect : Bytes → Option z.Z → Body State (Unit {0})
  protect note none = halt (refuse (reply code_db "database error: cannot make challenge"))
  protect note (some c) = check (Note.set_challenge db z note c)

  -- `rsa_challenge` of the modulus is a parameter, as is the identifier that `gen_id` makes of the time
  -- and a random number.
  pub withdraw_body : (z.Z → z.Z) → Bytes → List (Value n.Q) → Shell State z.Z → Body State Bytes
  withdraw_body rsa_challenge note vl sh = do
    me ← caller sh.acct
    elim sh.parent [ none ↦ pure tt | some _ ↦ covered me vl ]
    check (Note.set_issuer db note me)
    made ← check (Note.create_challenge db z rsa_challenge note)
    protect note made
    fill_note me note vl
    check (event_new_note_create db note (me ∷ []))
    pure note

  -- A note is read by its issuer, or with an answer to its challenge.
  pub may_read : Bytes → Option Bytes → z.Z → Bytes → Option Bytes → Body State (Unit {0})
  may_read note none c owner acct = do
    me ← caller acct
    refuse_if (not (str_eq owner me)) (reply code_noauth "not your note")
  may_read note (some signature) c owner acct = elim (z.of_string signature) [
    | none ↦ halt (refuse (reply code_invalid "invalid input (signature must be hex string)"))
    | some response ↦ do
      good ← check (Note.verify_reponse db z note c response)
      refuse_if (not good) (reply code_noauth "bad note signature")
  ]

  -- `note_challenge` is a fresh number.
  pub read_body : ℕ → Bytes → Option Bytes → Option Bytes → Body State (List Bytes)
  read_body fuel note signature acct = do
    must_exist (Note.exists db note) "no such note"
    c ← check (Note.get_challenge db z note z.zero)
    owner ← check (Note.get_issuer db note)
    may_read note signature c owner acct
    vl ← check (Note.get_portfolio db n fuel note)
    pure (
        (codes "id " ++ note)
        ∷ (codes "issuer " ++ owner)
        ∷ (codes "challenge " ++ z.to_string c)
        ∷ map (λ v. codes "value " ++ value_to_string n v) vl)

  -- The values of a note go to the account; a credit that has no success ends the command.
  pub credit_note : Bytes → List (Value n.Q) → Body State (Unit {0})
  credit_note me [] = pure tt
  credit_note me (v ∷ vl) = do
    good ← check (Acct.credit db n me v)
    refuse_if (not good) (reply code_db "database error: invalid note")
    credit_note me vl

  -- The values of the note go to the account, and the note is destroyed, with its issuer loaded.
  pub deposit_body : ℕ → Bytes → z.Z → Option Bytes → Body State (List Bytes)
  deposit_body fuel note response acct = do
    must_exist (Note.exists db note) "no such note"
    owner ← check (Note.get_issuer db note)
    c ← check (Note.get_challenge db z note z.zero)
    good ← check (Note.verify_reponse db z note c response)
    refuse_if (not good) (reply code_noauth "bad note signature")
    vl ← check (Note.get_portfolio db n fuel note)
    me ← caller acct
    credit_note me vl
    check (Note.destroy db n fuel note (owner ∷ []))
    pure (map (value_to_string n) vl)

  pub list_body : ℕ → Option Bytes → List Bytes → Body State (List Bytes)
  list_body fuel acct args = do
    me ← caller acct
    id ← subject db me args
    check (Holdings.get_note_list db fuel id)

  module _ (sv : Server State) where
    pub cmd_note_withdraw : (z.Z → z.Z) → Bytes → ℕ → List Bytes → Command sv z.Z
    cmd_note_withdraw rsa_challenge note fuel (_ ∷ arg ∷ args) =
        if_authenticated sv (elim (read_values n (arg ∷ args) []) [
          | none ↦ say sv (reply code_invalid "invalid input")
          | some vl ↦
              in_txn sv fuel (withdraw_body rsa_challenge note vl)
                (λ id. listing "noteid follows" (id ∷ []))
        ])
    cmd_note_withdraw rsa_challenge note fuel argv =
        say sv (reply code_usage "usage: note_withdraw value ...")

    note_read : ℕ → Bytes → Option Bytes → Command sv z.Z
    note_read fuel note signature =
        in_txn sv fuel (λ sh. read_body fuel note signature sh.acct)
          (listing "note attributes follow")

    -- Without a response the client has to be authenticated.
    pub cmd_note_read : ℕ → List Bytes → Command sv z.Z
    unfolding note_read
    cmd_note_read fuel (_ ∷ note ∷ []) = if_authenticated sv (note_read fuel note none)
    cmd_note_read fuel (_ ∷ note ∷ signature ∷ []) = note_read fuel note (some signature)
    cmd_note_read fuel argv = say sv (reply code_usage "usage: note_read noteid [response]")

    pub cmd_note_deposit : ℕ → List Bytes → Command sv z.Z
    cmd_note_deposit fuel (_ ∷ note ∷ signature ∷ []) =
        if_authenticated sv (elim (z.of_string signature) [
          | none ↦ say sv (reply code_invalid "invalid input")
          | some response ↦
              in_txn sv fuel (λ sh. deposit_body fuel note response sh.acct)
                (listing "deposited; note values follow")
        ])
    cmd_note_deposit fuel argv = say sv (reply code_usage "usage: note_deposit noteid signature")

    note_list : ℕ → List Bytes → Command sv z.Z
    note_list fuel args =
        if_authenticated sv
          (in_txn sv fuel (λ sh. list_body fuel sh.acct args) (listing "note list follows"))

    pub cmd_note_list : ℕ → List Bytes → Command sv z.Z
    unfolding note_list
    cmd_note_list fuel (_ ∷ []) = note_list fuel []
    cmd_note_list fuel (_ ∷ other ∷ []) = note_list fuel (other ∷ [])
    cmd_note_list fuel argv = say sv (reply code_usage "usage: note_list [acct]")
