-- ===== src/Bif/Shell/Accts.antt =====
-- The commands of bif/shell.cc on accounts. The list of a command's arguments begins with its name.
pub mod Unguarded
pub mod Closing
mod Tests
pub mod Guarded
use d_barter.Base.{
  ℕ, Bool, true, false, not, Option, none, some, List, [], ◌∷◌, ◌++◌, if◌then◌else◌, map,
}
use d_barter.Base.Bytes.{Bytes, codes, str_eq}
use d_barter.Bom.Store.{Store, on_found, pure as db_pure}
use d_barter.Bom.Event.{event_new_acct_create}
use d_barter.Bom.Value.{value_to_string}
use d_barter.Bom.Acct
use d_barter.Bom.Acct.{is_super}
use d_barter.Bom.Acct.Flags.{acct_flags_to_string, string_to_acct_flags}
use d_barter.Bom.Holdings
use d_barter.Dmath.Integer.{Integer}
use d_barter.Dmath.Quantity.{Quantity}
use d_barter.Bif.Codec.{encode_string}
use d_barter.Bif.Shell.{
  reply, listing, success, Body, pure, halt, ◌>>=◌, ◌>>◌, check, refuse_if, refuse, caller, Server,
  code_usage, code_noauth, code_invalid, code_exists,
}
use d_barter.Bif.Shell.Transact.{Command, say, if_authenticated, in_txn}
use d_barter.Bif.Shell.Subject.{must_exist, must_be_super, subject}

-- `n_attribute` of `acct_set`
pub data AcctAttr : Type 0 where
  flags promise public secret modulus : AcctAttr

pub acct_attr : Bytes → Option AcctAttr
acct_attr name =
    if str_eq name (codes "flags")
    then some flags
    else if str_eq name (codes "promise")
    then some promise
    else if str_eq name (codes "public")
    then some public
    else if str_eq name (codes "secret")
    then some secret
    else if str_eq name (codes "modulus")
    then some modulus
    else none

pub is_flags : AcctAttr → Bool
is_flags flags = true
is_flags a = false

module _ (db : Store) where
  open db use {State}

  -- The flags are for a superuser only, the other attributes also for the account itself.
  pub may_set : Bytes → Bytes → AcctAttr → ℕ → Body State (Unit {0})
  may_set me id attr f = if is_super f then pure tt else (do
    refuse_if (is_flags attr) (reply code_noauth "no superacct permissions")
    refuse_if (not (str_eq me id)) (reply code_noauth "no superacct permissions"))

  pub destroy_body : Quantity → ℕ → Bytes → Option Bytes → Body State (Unit {0})
  destroy_body n fuel id acct = do
    me ← caller acct
    must_be_super db me "no superacct permissions"
    refuse_if (str_eq me id) (reply code_noauth "cannot delete self")
    must_exist (Acct.exists db id) "no such acct"
    check (Holdings.destroy db n fuel id)

  pub balance_body : (n : Quantity) → ℕ → Option Bytes → List Bytes → Body State (List Bytes)
  balance_body n fuel acct args = do
    me ← caller acct
    id ← subject db me args
    vl ← check (Acct.get_portfolio db n fuel id)
    pure (map (value_to_string n) vl)

  module _ (z : Integer) where
    -- A text that is no number leaves the fresh number 0.
    pub number_or_zero : Bytes → z.Z
    number_or_zero s = elim (z.of_string s) [ none ↦ z.zero | some x ↦ x ]

    pub create_body : Bytes → z.Z → z.Z → Option Bytes → Body State (Unit {0})
    create_body id kpublic kmodulus acct = do
      me ← caller acct
      must_be_super db me "permission denied"
      there ← check (Acct.exists db id)
      refuse_if there (reply code_exists "acct already exists")
      check (Acct.set_flags db id 0)
      check (Acct.set_public db z id kpublic)
      check (Acct.set_modulus db z id kmodulus)
      check (Acct.set_promise db id [])
      check (event_new_acct_create db id)
      pure tt

    pub set_attr : Bytes → AcctAttr → Bytes → Body State (Unit {0})
    set_attr id public value = check (Acct.set_public db z id (number_or_zero value))
    set_attr id secret value = check (Acct.set_secret db z id (number_or_zero value))
    set_attr id modulus value = check (Acct.set_modulus db z id (number_or_zero value))
    set_attr id flags value = elim (string_to_acct_flags value) [
      | none ↦ halt (refuse (reply code_invalid "invalid input"))
      | some f ↦ check (Acct.set_flags db id f)
    ]
    set_attr id promise value = check (Acct.set_promise db id value)

    pub set_body : Bytes → AcctAttr → Bytes → Option Bytes → Body State (Unit {0})
    set_body id attr value acct = do
      must_exist (Acct.exists db id) "no such acct"
      me ← caller acct
      f ← check (Acct.get_flags db me)
      may_set me id attr f
      set_attr id attr value

    -- The secret key, for a superuser; a missing one is left out.
    pub read_secret : Bytes → ℕ → Body State (Option z.Z)
    read_secret id f =
        if is_super f
        then check (on_found (Acct.get_secret db z id) (λ k. db_pure (some k)) (db_pure none))
        else pure none

    pub secret_line : Option z.Z → List Bytes
    secret_line none = []
    secret_line (some k) = (codes "secret " ++ z.to_string k) ∷ []

    pub read_body : Bytes → Option Bytes → Body State (List Bytes)
    read_body id acct = do
      must_exist (Acct.exists db id) "acct does not exist"
      kmodulus ← check (Acct.get_modulus db z id)
      kpublic ← check (Acct.get_public db z id)
      text ← check (Acct.get_promise db id)
      of_id ← check (Acct.get_flags db id)
      me ← caller acct
      f ← check (Acct.get_flags db me)
      ksecret ← read_secret id f
      pure (
          (codes "id " ++ encode_string (id ∷ []))
          ∷ (codes "flags " ++ encode_string (acct_flags_to_string of_id ∷ []))
          ∷ (codes "promise " ++ encode_string (text ∷ []))
          ∷ (codes "public " ++ z.to_string kpublic)
          ∷ (codes "modulus " ++ z.to_string kmodulus)
          ∷ secret_line ksecret)

  module _ (sv : Server State) (z : Integer) (n : Quantity) where
    -- The keys are read before the transaction begins.
    pub cmd_acct_create : ℕ → List Bytes → Command sv z.Z
    cmd_acct_create fuel (_ ∷ id ∷ spublic ∷ smodulus ∷ []) =
        let bad_public = say sv (reply code_invalid "invalid input (public key)") in
        let bad_modulus = say sv (reply code_invalid "invalid input (modulus)") in
        if_authenticated sv (elim (z.of_string spublic) [
          | none ↦ bad_public
          | some kpublic ↦
              if z.is_below kpublic 1 then bad_public else elim (z.of_string smodulus) [
                | none ↦ bad_modulus
                | some kmodulus ↦
                    if z.is_below kmodulus 2
                    then bad_modulus
                    else in_txn sv fuel (λ sh. create_body z id kpublic kmodulus sh.acct)
                        (λ _. success)
              ]
        ])
    cmd_acct_create fuel argv = say sv (reply code_usage "usage: acct_create acctid public modulus")

    -- There is no test of `status` here, nor in the next two commands.
    pub cmd_acct_set : ℕ → List Bytes → Command sv z.Z
    cmd_acct_set fuel (_ ∷ id ∷ name ∷ value ∷ []) = elim (acct_attr name) [
      | none ↦ say sv (reply code_invalid "attribute must be in (flags, public, secret, modulus)")
      | some attr ↦ in_txn sv fuel (λ sh. set_body z id attr value sh.acct) (λ _. success)
    ]
    cmd_acct_set fuel argv = say sv (reply code_usage "usage: acct_set acct attribute value")

    pub cmd_acct_destroy : ℕ → List Bytes → Command sv z.Z
    cmd_acct_destroy fuel (_ ∷ id ∷ []) =
        in_txn sv fuel (λ sh. destroy_body n fuel id sh.acct) (λ _. success)
    cmd_acct_destroy fuel argv = say sv (reply code_usage "usage: acct_destroy acct")

    pub cmd_acct_read : ℕ → List Bytes → Command sv z.Z
    cmd_acct_read fuel (_ ∷ id ∷ []) =
        in_txn sv fuel (λ sh. read_body z id sh.acct) (listing "acct attributes follow")
    cmd_acct_read fuel argv = say sv (reply code_usage "usage: acct_read acctid")

    balance : ℕ → List Bytes → Command sv z.Z
    balance fuel args =
        if_authenticated sv
          (in_txn sv fuel (λ sh. balance_body n fuel sh.acct args) (listing "balance follows"))

    pub cmd_balance : ℕ → List Bytes → Command sv z.Z
    unfolding balance
    cmd_balance fuel (_ ∷ []) = balance fuel []
    cmd_balance fuel (_ ∷ other ∷ []) = balance fuel (other ∷ [])
    cmd_balance fuel argv = say sv (reply code_usage "usage: balance [acct]")
