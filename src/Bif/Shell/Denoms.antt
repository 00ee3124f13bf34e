-- ===== src/Bif/Shell/Denoms.antt =====
-- The commands of bif/shell.cc on denominations. The list of a command's arguments begins with its name.
pub mod Closing
pub mod Guarded
use d_barter.Base.{ℕ, true, not, Option, none, some, List, [], ◌∷◌, ◌++◌, ◌&&◌, if◌then◌else◌}
use d_barter.Base.Bytes.{Bytes, codes, str_eq}
use d_barter.Bom.Store.{Store}
use d_barter.Bom.Event.{event_new_denom_create}
use d_barter.Bom.Acct
use d_barter.Bom.Acct.{is_super, is_issuer}
use d_barter.Bom.Denom
use d_barter.Bom.Holdings
use d_barter.Bif.Codec.{encode_string}
use d_barter.Bif.Shell.{
  reply, listing, success, Body, pure, ◌>>=◌, ◌>>◌, check, refuse_if, caller, Server, code_usage,
  code_noauth, code_invalid, code_exists,
}
use d_barter.Bif.Shell.Transact.{Command, say, if_authenticated, in_txn}
use d_barter.Bif.Shell.Subject.{must_exist, must_be_super, subject}

-- `n_attribute` of `denom_set`
pub data DenomAttr : Type 0 where
  promise issuer : DenomAttr

pub denom_attr : Bytes → Option DenomAttr
denom_attr name =
    if str_eq name (codes "promise")
    then some promise
    else if str_eq name (codes "issuer")
    then some issuer
    else none

module _ (db : Store) where
  open db use {State}

  pub create_body : Bytes → Option Bytes → Body State (Unit {0})
  create_body id acct = do
    there ← check (Denom.exists db id)
    refuse_if there (reply code_exists "denom already exists")
    me ← caller acct
    flags ← check (Acct.get_flags db me)
    refuse_if (not (is_issuer flags) && not (is_super flags))
        (reply code_noauth "no issuer permissions")
    check (Denom.set_issuer db id me)
    check (Denom.set_promise db id [])
    check (event_new_denom_create db id (me ∷ []))
    pure tt

  -- Only a superuser gives a denomination to another issuer; the promise is for its issuer too.
  pub may_set : Bytes → Bytes → DenomAttr → ℕ → Body State (Unit {0})
  may_set me id attr flags = if is_super flags then pure tt else (do
    refuse_if (not (is_issuer flags)) (reply code_noauth "no issuer permissions")
    elim attr [
      | issuer ↦ refuse_if true (reply code_noauth "no superacct permissions")
      | promise ↦ do
        owner ← check (Denom.get_issuer db id)
        refuse_if (not (str_eq owner me)) (reply code_noauth "no superacct permissions")
    ])

  pub set_attr : Bytes → DenomAttr → Bytes → Body State (Unit {0})
  set_attr id promise value = check (Denom.set_promise db id value)
  set_attr id issuer value = check (Denom.set_issuer db id value)

  pub set_body : Bytes → DenomAttr → Bytes → Option Bytes → Body State (Unit {0})
  set_body id attr value acct = do
    must_exist (Denom.exists db id) "no such denom"
    me ← caller acct
    flags ← check (Acct.get_flags db me)
    may_set me id attr flags
    set_attr id attr value

  -- The object has no issuer loaded.
  pub destroy_body : Bytes → Option Bytes → Body State (Unit {0})
  destroy_body id acct = do
    me ← caller acct
    must_be_super db me "no superacct permissions"
    must_exist (Denom.exists db id) "no such acct"
    check (Denom.destroy db id [])

  pub read_body : Bytes → Body State (List Bytes)
  read_body id = do
    must_exist (Denom.exists db id) "no such denom"
    owner ← check (Denom.get_issuer db id)
    text ← check (Denom.get_promise db id)
    pure (
        (codes "id " ++ encode_string (id ∷ []))
        ∷ (codes "issuer " ++ owner)
        ∷ (codes "promise " ++ encode_string (text ∷ []))
        ∷ [])

  pub list_body : ℕ → Option Bytes → List Bytes → Body State (List Bytes)
  list_body fuel acct args = do
    me ← caller acct
    id ← subject db me args
    check (Holdings.get_denom_list db fuel id)

  pub all_body : ℕ → Body State (List Bytes)
  all_body fuel = check (Denom.get_denom_list db fuel)

  pub search_body : ℕ → Bytes → Body State (List Bytes)
  search_body fuel pattern = check (Denom.search_denom_list db fuel pattern)

  module _ (sv : Server State) {Z : Type 0} where
    pub cmd_denom_create : ℕ → List Bytes → Command sv Z
    cmd_denom_create fuel (_ ∷ id ∷ []) =
        if_authenticated sv (in_txn sv fuel (λ sh. create_body id sh.acct) (λ _. success))
    cmd_denom_create fuel argv = say sv (reply code_usage "usage: denom_create denom")

    -- The attribute is looked up before the transaction begins.
    pub cmd_denom_set : ℕ → List Bytes → Command sv Z
    cmd_denom_set fuel (_ ∷ id ∷ name ∷ value ∷ []) = if_authenticated sv (elim (denom_attr name) [
      | none ↦ say sv (reply code_invalid "attribute must be in (promise, issuer)")
      | some attr ↦ in_txn sv fuel (λ sh. set_body id attr value sh.acct) (λ _. success)
    ])
    cmd_denom_set fuel argv = say sv (reply code_usage "usage: denom_set denom attribute value")

    -- There is no test of `status` here.
    pub cmd_denom_destroy : ℕ → List Bytes → Command sv Z
    cmd_denom_destroy fuel (_ ∷ id ∷ []) =
        in_txn sv fuel (λ sh. destroy_body id sh.acct) (λ _. success)
    cmd_denom_destroy fuel argv = say sv (reply code_usage "usage: denom_destroy denom")

    pub cmd_denom_read : ℕ → List Bytes → Command sv Z
    cmd_denom_read fuel (_ ∷ id ∷ []) =
        if_authenticated sv
          (in_txn sv fuel (λ sh. read_body id) (listing "denom attributes follow"))
    cmd_denom_read fuel argv = say sv (reply code_usage "usage: denom_read denomid")

    pub cmd_denom_list_all : ℕ → List Bytes → Command sv Z
    cmd_denom_list_all fuel (_ ∷ []) =
        if_authenticated sv (in_txn sv fuel (λ sh. all_body fuel) (listing "denom list follows"))
    cmd_denom_list_all fuel argv = say sv (reply code_usage "usage: denom_list_all")

    pub cmd_denom_search : ℕ → List Bytes → Command sv Z
    cmd_denom_search fuel (_ ∷ pattern ∷ []) =
        if_authenticated sv
          (in_txn sv fuel (λ sh. search_body fuel pattern) (listing "denom list follows"))
    cmd_denom_search fuel argv = say sv (reply code_usage "usage: denom_search pattern")

    denom_list : ℕ → List Bytes → Command sv Z
    denom_list fuel args =
        if_authenticated sv
          (in_txn sv fuel (λ sh. list_body fuel sh.acct args) (listing "denom list follows"))

    pub cmd_denom_list : ℕ → List Bytes → Command sv Z
    unfolding denom_list
    cmd_denom_list fuel (_ ∷ []) = denom_list fuel []
    cmd_denom_list fuel (_ ∷ other ∷ []) = denom_list fuel (other ∷ [])
    cmd_denom_list fuel argv = say sv (reply code_usage "usage: denom_list [acct]")
