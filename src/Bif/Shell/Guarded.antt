-- ===== src/Bif/Shell/Guarded.antt =====
-- What `if (!status)` of the commands of bif/shell.cc does before a client has proved who it is.
use d_barter.Base.{ℕ, ◌≡◌, refl, ap, false, List, if◌then◌else◌}
use d_barter.Base.Bytes.{Bytes}
use d_barter.Bif.Shell.{Reply, reply, Shell, Server, Answer, said, code_noauth}
use d_barter.Bif.Shell.Transact.{Command, say, if_authenticated}

module _ {S : Type 0} (sv : Server S) {Z : Type 0} where
  -- For such a client the command has one answer, whatever the server holds, and no effect.
  pub record Denies (c : Command sv Z) : Type 0 where
    pub denies :
        (sh : Shell S Z)
        → sh.status ≡ false
        → (r : Answer) × ((w : sv.World) → c sh w ≡ (r, (sh, w)))

  pub say-Denies : (r : Reply) → Denies (say sv r)
  say-Denies r = record { denies = λ sh h. (said r, λ w. refl) }

  pub if_authenticated-Denies : (c : Command sv Z) → Denies (if_authenticated sv c)
  unfolding if_authenticated
  if_authenticated-Denies c = record {
    denies = λ sh h. (
      said (reply code_noauth "not authenticated"),
      λ w. ap (λ b. if b then c sh w else say sv (reply code_noauth "not authenticated") sh w) h,
    );
  }

  -- A command on whatever arguments, with whatever fuel.
  abbrev pub AllDeny : (ℕ → List Bytes → Command sv Z) → Type 0
  AllDeny c = (fuel : ℕ) (argv : List Bytes) → Denies (c fuel argv)
