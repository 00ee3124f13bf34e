-- ===== src/Bif/Shell/Open/Commands.antt =====
-- Commands that forget no transaction (bif/shell.cc).
use d_barter.Base.{List, ℕ, ◌≡◌, refl, Bool, true, false, Option, none, some, if◌then◌else◌}
use d_barter.Base.Bytes.{Bytes}
use d_barter.Bif.Shell.{
  Body, Shell, Server, Reply, Answer, said, done, refused, broken, crashed, spinning, reply,
  code_noauth,
}
use d_barter.Bif.Shell.Transact.{Outcome, transact, Command, say, if_authenticated, answer, in_txn}
use d_barter.Bif.Shell.Laws.{IsCounted}
use d_barter.Bif.Shell.Open.{with_own, Settled, settled, unfinished, transact-Settled}

-- The server has not crashed, and has not spent its fuel.
abbrev pub is_answer : Answer → Bool
is_answer (said r) = true
is_answer a = false

module _ {S : Type 0} (sv : Server S) (law : IsCounted sv) (k : ℕ) where
  open sv use {World}
  open law use {open_txns}

  -- What a command has answered, the shell and the server behind it.
  pub data SettledCommand {Z : Type 0} : Answer × (Shell S Z × World) → Type 0 where
    balanced :
        {r : Answer} {sh : Shell S Z} {w : World}
        → open_txns w ≡ with_own sh.parent k
        → SettledCommand (r, (sh, w))
    crashed_or_spins :
        {r : Answer} {sh : Shell S Z} {w : World}
        → is_answer r ≡ false
        → SettledCommand (r, (sh, w))

  -- A command that forgets no transaction.
  pub record Closes {Z : Type 0} (c : Command sv Z) : Type 0 where
    pub closes :
        (sh : Shell S Z) (w : World) → open_txns w ≡ with_own sh.parent k → SettledCommand (c sh w)

  module _ {Z : Type 0} where
    pub say-Closes : (r : Reply) → Closes {Z = Z} (say sv r)
    say-Closes r = record { closes = λ sh w h. balanced h }

    pub if-Closes :
        (b : Bool) (c d : Command sv Z) → Closes c → Closes d → Closes (if b then c else d)
    if-Closes true c d hc hd = hc
    if-Closes false c d hc hd = hd

    pub option-Closes :
        {X : Type 0} (o : Option X) (c : Command sv Z) (f : X → Command sv Z)
        → Closes c
        → ((x : X) → Closes (f x))
        → Closes (elim o [ none ↦ c | some x ↦ f x ])
    option-Closes none c f hc hf = hc
    option-Closes (some x) c f hc hf = hf x

    -- A command that looks at the shell before it is chosen.
    pub by_shell-Closes :
        (c : Shell S Z → Command sv Z) → ((sh : Shell S Z) → Closes (c sh)) → Closes (λ sh. c sh sh)
    by_shell-Closes c h = record { closes = λ sh w e. (h sh).closes sh w e }

    pub if_authenticated-Closes : (c : Command sv Z) → Closes c → Closes (if_authenticated sv c)
    unfolding if_authenticated
    if_authenticated-Closes c h = record {
      closes = λ sh w e. choose sh.status sh w (h.closes sh w e) (balanced e);
    }
      where
        choose :
            (b : Bool) (sh : Shell S Z) (w : World)
            → SettledCommand (c sh w)
            → SettledCommand (say sv (reply code_noauth "not authenticated") sh w)
            → SettledCommand
                (if b then c sh w else say sv (reply code_noauth "not authenticated") sh w)
        choose true sh w h e = h
        choose false sh w h e = e

    pub answer-Settled :
        {A : Type 0} (f : A → Reply) (sh : Shell S Z) (o : Outcome sv A)
        → Settled sv law k o
        → SettledCommand (answer sv f sh o)
    unfolding answer
    answer-Settled f sh (done a, (p, w)) (settled h) = balanced h
    answer-Settled f sh (refused r, (p, w)) (settled h) = balanced h
    answer-Settled f sh (broken r, (p, w)) (settled h) = balanced h
    answer-Settled f sh (crashed, (p, w)) (settled h) = crashed_or_spins refl
    answer-Settled f sh (spinning, (p, w)) (settled h) = crashed_or_spins refl
    answer-Settled f sh (done a, (p, w)) (unfinished h) = absurd (cc h)
    answer-Settled f sh (refused r, (p, w)) (unfinished h) = absurd (cc h)
    answer-Settled f sh (broken r, (p, w)) (unfinished h) = absurd (cc h)
    answer-Settled f sh (crashed, (p, w)) (unfinished h) = crashed_or_spins refl
    answer-Settled f sh (spinning, (p, w)) (unfinished h) = crashed_or_spins refl

    pub in_txn-Closes :
        {A : Type 0} (fuel : ℕ) (body : Shell S Z → Body S A) (f : A → Reply)
        → Closes (in_txn sv fuel body f)
    unfolding in_txn
    in_txn-Closes fuel body f = record {
      closes = λ sh w h.
          answer-Settled f sh (transact sv fuel (body sh) sh.parent w)
            (transact-Settled sv law k fuel (body sh) sh.parent w h);
    }

    pub guarded-Closes :
        {A : Type 0} (fuel : ℕ) (body : Shell S Z → Body S A) (f : A → Reply)
        → Closes (if_authenticated sv (in_txn sv fuel body f))
    guarded-Closes fuel body f = if_authenticated-Closes _ (in_txn-Closes fuel body f)

    -- A command on whatever arguments, with whatever fuel.
    abbrev pub AllClose : (ℕ → List Bytes → Command sv Z) → Type 0
    AllClose c = (fuel : ℕ) (argv : List Bytes) → Closes (c fuel argv)
