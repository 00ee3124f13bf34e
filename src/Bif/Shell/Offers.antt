-- ===== src/Bif/Shell/Offers.antt =====
-- The commands of bif/shell.cc on offers. The list of a command's arguments begins with its name.
pub mod Closing
pub mod Guarded
use d_barter.Base.{ℕ, not, Option, none, some, List, [], ◌∷◌, ◌++◌, ◌||◌, if◌then◌else◌}
use mathlib.Core.List.{reverse}
use d_barter.Base.Bytes.{Bytes, codes, str_eq}
use d_barter.Bom.Store.{Store}
use d_barter.Bom.Value.{Value, string_to_value, value_to_string}
use d_barter.Bom.Event.{event_new_offer_create}
use d_barter.Bom.Acct
use d_barter.Bom.Denom
use d_barter.Bom.Offer
use d_barter.Bom.Offer.{no_value}
use d_barter.Bom.Holdings
use d_barter.Dmath.Quantity.{Quantity, Ratio}
use d_barter.Bif.Shell.{
  reply, listing, Body, pure, ◌>>=◌, ◌>>◌, check, refuse_if, Shell, caller, Server, done, Answer,
  code_usage, code_db, code_invalid,
}
use d_barter.Bif.Shell.Transact.{Command, say, if_authenticated, in_txn, Outcome, transact, answer}
use d_barter.Bif.Shell.Subject.{must_exist, must_be_super, subject}

module _ (db : Store) (n : Quantity) where
  open db use {State}

  -- The account that the list is asked for is looked up, and the list is that of the caller.
  pub list_body : ℕ → Option Bytes → List Bytes → Body State (List Bytes)
  list_body fuel acct args = do
    me ← caller acct
    _ ← subject db me args
    check (Holdings.get_offer_list db fuel me)

  -- The list of `find_all_offers`, turned around.
  pub by_denom_body : ℕ → Bytes → Bytes → Body State (List Bytes)
  by_denom_body fuel ask bid = do
    must_exist (Denom.exists db ask) "ask_denom does not exist"
    must_exist (Denom.exists db bid) "bid_denom does not exist"
    ol ← check (Offer.find_all_offers db fuel ask bid)
    pure (reverse ol)

  -- What an offer bids goes back to the account that takes the offer away, the issuer or a superuser.
  pub destroy_body : ℕ → Bytes → Option Bytes → Body State (Unit {0})
  destroy_body fuel offer acct = do
    must_exist (Offer.exists db offer) "no such offer"
    owner ← check (Offer.get_issuer db offer)
    bid ← check (Offer.get_bid_value db n offer (no_value db n))
    me ← caller acct
    if str_eq owner me then pure tt else must_be_super db me "not your offer"
    paid ← check (Acct.credit db n me bid)
    refuse_if (not paid) (reply code_db "database error: cannot credit bid")
    check (Offer.destroy db n fuel offer (owner ∷ []))

  pub create_body : Ratio n → Bytes → Value n.Q → Value n.Q → Option Bytes → Body State Bytes
  create_body t offer ask bid acct = do
    me ← caller acct
    paid ← check (Acct.debit db n me bid)
    refuse_if (not paid) (reply code_db "database error: cannot debit bid")
    check (Offer.set_issuer db offer me)
    check (Offer.set_bid_value db n offer bid)
    check (Offer.set_ask_value db n offer ask)
    check (Offer.set_index db n t offer ask bid)
    check (event_new_offer_create db offer (me ∷ []))
    pure offer

  -- The issuer is shown to itself only.
  pub read_body : Bytes → Option Bytes → Body State (List Bytes)
  read_body offer acct = do
    must_exist (Offer.exists db offer) "no such offer"
    owner ← check (Offer.get_issuer db offer)
    bid ← check (Offer.get_bid_value db n offer (no_value db n))
    ask ← check (Offer.get_ask_value db n offer (no_value db n))
    me ← caller acct
    let shown : List Bytes = if str_eq owner me then (codes "issuer " ++ owner) ∷ [] else []
    pure (
        (codes "id " ++ offer)
        ∷ (shown
            ++ ((codes "ask " ++ value_to_string n ask)
                ∷ (codes "bid " ++ value_to_string n bid)
                ∷ [])))

  module _ (sv : Server State) {Z : Type 0} where
    open sv use {World}

    pub cmd_offer_destroy : ℕ → List Bytes → Command sv Z
    cmd_offer_destroy fuel (_ ∷ offer ∷ []) = if_authenticated sv (
        in_txn sv fuel (λ sh. destroy_body fuel offer sh.acct)
          (λ _. listing "offer destroyed" (offer ∷ [])))
    cmd_offer_destroy fuel argv = say sv (reply code_usage "usage: offer_destroy offerid")

    -- Only an offer that has been made starts a trader.
    signalled :
        Value n.Q → Value n.Q → Shell State Z → Outcome sv Bytes → Answer × (Shell State Z × World)
    signalled ask bid sh (e, (p, w)) =
        let after : World = elim e [ done _ ↦ sv.signal ask.denom bid.denom w | other ↦ w ] in
        answer sv (λ id. listing "offerid follows" (id ∷ [])) sh (e, (p, after))

    offer_create : Ratio n → Bytes → ℕ → Value n.Q → Value n.Q → Command sv Z
    unfolding signalled
    offer_create t offer fuel ask bid sh w =
        signalled ask bid sh (transact sv fuel (create_body t offer ask bid sh.acct) sh.parent w)

    -- The tests on the two values, in the order of the code.
    offer_values :
        Option (Value n.Q)
        → Option (Value n.Q)
        → (Value n.Q → Value n.Q → Command sv Z)
        → Command sv Z
    offer_values none bid go = say sv (reply code_invalid "invalid input: ask_value")
    offer_values (some ask) none go =
        if n.is_zero ask.quant || n.is_neg ask.quant
        then say sv (reply code_invalid "invalid input: ask_value (must be > 0)")
        else say sv (reply code_invalid "invalid input: bid_value")
    offer_values (some ask) (some bid) go =
        if n.is_zero ask.quant || n.is_neg ask.quant
        then say sv (reply code_invalid "invalid input: ask_value (must be > 0)")
        else if n.is_zero bid.quant || n.is_neg bid.quant
        then say sv (reply code_invalid "invalid input: bid_value (must be > 0)")
        else if str_eq ask.denom bid.denom
        then say sv (reply code_invalid "invalid input: offer must have different denoms")
        else go ask bid

    -- The identifier that `gen_id` makes of the time and a random number is a parameter.
    pub cmd_offer_create : Ratio n → Bytes → ℕ → List Bytes → Command sv Z
    unfolding offer_create offer_values
    cmd_offer_create t offer fuel (_ ∷ ask ∷ bid ∷ []) =
        if_authenticated sv
          (offer_values (string_to_value n ask) (string_to_value n bid) (offer_create t offer fuel))
    cmd_offer_create t offer fuel argv =
        say sv (reply code_usage "usage: offer_create ask_value bid_value")

    pub cmd_offer_read : ℕ → List Bytes → Command sv Z
    cmd_offer_read fuel (_ ∷ offer ∷ []) =
        if_authenticated sv
          (in_txn sv fuel (λ sh. read_body offer sh.acct) (listing "offer attributes follow"))
    cmd_offer_read fuel argv = say sv (reply code_usage "usage: offer_read offerid")

    pub cmd_offer_list_by_denom : ℕ → List Bytes → Command sv Z
    cmd_offer_list_by_denom fuel (_ ∷ ask ∷ bid ∷ []) =
        if_authenticated sv
          (in_txn sv fuel (λ sh. by_denom_body fuel ask bid) (listing "offer list follows"))
    cmd_offer_list_by_denom fuel argv =
        say sv (reply code_usage "usage: offer_list_by_denom ask_denom bid_denom")

    offer_list : ℕ → List Bytes → Command sv Z
    offer_list fuel args =
        if_authenticated sv
          (in_txn sv fuel (λ sh. list_body fuel sh.acct args) (listing "offer list follows"))

    pub cmd_offer_list : ℕ → List Bytes → Command sv Z
    unfolding offer_list
    cmd_offer_list fuel (_ ∷ []) = offer_list fuel []
    cmd_offer_list fuel (_ ∷ other ∷ []) = offer_list fuel (other ∷ [])
    cmd_offer_list fuel argv = say sv (reply code_usage "usage: offer_list [acct]")
