-- ===== src/Bif/Shell/Offers/Closing.antt =====
-- The commands of bif/shell.cc on offers forget no transaction.
use d_barter.Base.{Option, some, none, ◌∙◌, ◌||◌, [], ◌∷◌, ℕ}
use d_barter.Base.Bytes.{Bytes, str_eq}
use d_barter.Bom.Store.{Store}
use d_barter.Dmath.Quantity.{Quantity, Ratio}
use d_barter.Bom.Value.{Value}
use d_barter.Bif.Shell.{Server, Shell, done, refused, broken, crashed, spinning}
use d_barter.Bif.Shell.Transact.{Outcome, Command, transact}
use d_barter.Bif.Shell.Laws.{IsCounted}
use d_barter.Bif.Shell.Open.{Settled, settled, unfinished, transact-Settled}
use d_barter.Bif.Shell.Open.Commands.{
  SettledCommand, Closes, answer-Settled, if_authenticated-Closes, if-Closes, AllClose, say-Closes,
  guarded-Closes,
}
use d_barter.Bif.Shell.Offers.{
  create_body, signalled, offer_create, offer_values, cmd_offer_create, cmd_offer_destroy,
  cmd_offer_read, cmd_offer_list_by_denom, cmd_offer_list, offer_list,
}

module _ (db : Store) (sv : Server db.State) (law : IsCounted sv) (k : ℕ) (n : Quantity)
    {Z : Type 0} where
  pub cmd_offer_destroy-Closes : AllClose sv law k (cmd_offer_destroy db n sv {Z = Z})
  unfolding cmd_offer_destroy
  cmd_offer_destroy-Closes fuel (_ ∷ offer ∷ []) = guarded-Closes sv law k fuel _ _
  cmd_offer_destroy-Closes fuel argv = say-Closes sv law k _

  pub cmd_offer_read-Closes : AllClose sv law k (cmd_offer_read db n sv {Z = Z})
  unfolding cmd_offer_read
  cmd_offer_read-Closes fuel (_ ∷ offer ∷ []) = guarded-Closes sv law k fuel _ _
  cmd_offer_read-Closes fuel argv = say-Closes sv law k _

  pub cmd_offer_list_by_denom-Closes : AllClose sv law k (cmd_offer_list_by_denom db n sv {Z = Z})
  unfolding cmd_offer_list_by_denom
  cmd_offer_list_by_denom-Closes fuel (_ ∷ ask ∷ bid ∷ []) = guarded-Closes sv law k fuel _ _
  cmd_offer_list_by_denom-Closes fuel argv = say-Closes sv law k _

  pub cmd_offer_list-Closes : AllClose sv law k (cmd_offer_list db n sv {Z = Z})
  unfolding cmd_offer_list offer_list
  cmd_offer_list-Closes fuel (_ ∷ []) = guarded-Closes sv law k fuel _ _
  cmd_offer_list-Closes fuel (_ ∷ other ∷ []) = guarded-Closes sv law k fuel _ _
  cmd_offer_list-Closes fuel argv = say-Closes sv law k _

  -- The signal of an offer that has been made opens no transaction.
  signalled-Settled :
      (ask bid : Value n.Q) (sh : Shell db.State Z) (o : Outcome sv Bytes)
      → Settled sv law k o
      → SettledCommand sv law k (signalled db n sv ask bid sh o)
  unfolding signalled
  signalled-Settled ask bid sh (done a, (p, w)) (settled h) =
      answer-Settled sv law k _ sh _ (settled (law.signal_stays ask.denom bid.denom w ∙ h))
  signalled-Settled ask bid sh (done a, (p, w)) (unfinished h) = absurd (cc h)
  signalled-Settled ask bid sh (refused r, (p, w)) h = answer-Settled sv law k _ sh _ h
  signalled-Settled ask bid sh (broken r, (p, w)) h = answer-Settled sv law k _ sh _ h
  signalled-Settled ask bid sh (crashed, (p, w)) h = answer-Settled sv law k _ sh _ h
  signalled-Settled ask bid sh (spinning, (p, w)) h = answer-Settled sv law k _ sh _ h

  module _ (t : Ratio n) (offer : Bytes) where
    offer_create-Closes :
        (fuel : ℕ) (ask bid : Value n.Q)
        → Closes sv law k (offer_create db n sv {Z = Z} t offer fuel ask bid)
    unfolding offer_create
    offer_create-Closes fuel ask bid = record {
      closes = λ sh w h.
          signalled-Settled ask bid sh
            (transact sv fuel (create_body db n t offer ask bid sh.acct) sh.parent w)
            (transact-Settled sv law k fuel _ sh.parent w h);
    }

    offer_values-Closes :
        (ask bid : Option (Value n.Q)) (go : Value n.Q → Value n.Q → Command sv Z)
        → ((a b : Value n.Q) → Closes sv law k (go a b))
        → Closes sv law k (offer_values db n sv ask bid go)
    unfolding offer_values
    offer_values-Closes none bid go h = say-Closes sv law k _
    offer_values-Closes (some ask) none go h =
        if-Closes sv law k _ _ _ (say-Closes sv law k _) (say-Closes sv law k _)
    offer_values-Closes (some ask) (some bid) go h =
        if-Closes sv law k (n.is_zero ask.quant || n.is_neg ask.quant) _ _ (say-Closes sv law k _) (
          if-Closes sv law k (n.is_zero bid.quant || n.is_neg bid.quant) _ _ (say-Closes sv law k _)
            (if-Closes sv law k (str_eq ask.denom bid.denom) _ _ (say-Closes sv law k _)
              (h ask bid)))

    pub cmd_offer_create-Closes : AllClose sv law k (cmd_offer_create db n sv {Z = Z} t offer)
    unfolding cmd_offer_create
    cmd_offer_create-Closes fuel (_ ∷ ask ∷ bid ∷ []) =
        if_authenticated-Closes sv law k _
          (offer_values-Closes _ _ _ (λ a b. offer_create-Closes fuel a b))
    cmd_offer_create-Closes fuel argv = say-Closes sv law k _
