-- ===== src/Bif/Shell.antt =====
-- The shell of a client's connection (bif/shell.cc): its state, the replies that it writes, and the
-- bodies of its commands. The transactions of Berkeley DB and the market of the server are a
-- parameter.
pub mod Transact
pub mod Laws
pub mod Atomic
pub mod Open
pub mod Guarded
pub mod Inversion
pub mod Memory
pub mod Subject
pub mod Denoms
pub mod Accts
pub mod Login
pub mod Money
pub mod Notes
pub mod Events
pub mod Offers
pub mod Txns
pub mod Dispatch
pub mod ReadLine
use d_barter.Base.{
  ℕ, ◌≡◌, Bool, true, false, Option, none, some, List, [], ◌∷◌, ◌++◌, ◌==◌, if◌then◌else◌,
}
use d_barter.Base.Bytes.{Bytes, codes}
use d_barter.Bom.Store.{Error, not_found, minus_one, errno, out_of_fuel, Result, ok, err, M}
use d_barter.Bom.Text.{decimal, format_int}
use Prim.Native.String.{String}

-- `response_code_t`
abbrev pub code_usage : ℕ
code_usage = 333

abbrev pub code_noauth : ℕ
code_noauth = 339

abbrev pub code_db : ℕ
code_db = 340

abbrev pub code_invalid : ℕ
code_invalid = 341

abbrev pub code_insufficient : ℕ
code_insufficient = 343

abbrev pub code_exists : ℕ
code_exists = 358

abbrev pub code_notfound : ℕ
code_notfound = 359

abbrev pub code_aborted : ℕ
code_aborted = 360

abbrev pub code_success : ℕ
code_success = 500

-- What a command writes: a code, a text, lines, and a line with a dot.
pub record Reply : Type 0 where
  pub code : ℕ
  pub text : Bytes
  pub lines : List Bytes

abbrev pub reply : ℕ → String → Reply
reply code text = record { code = code; text = codes text; lines = [] }

abbrev pub listing : String → List Bytes → Reply
listing text lines = record { code = code_success; text = codes text; lines = lines }

abbrev pub success : Reply
success = reply code_success "success"

print_lines : List Bytes → Bytes
print_lines [] = codes ".\n"
print_lines (l ∷ ls) = l ++ (codes "\n" ++ print_lines ls)

-- The bytes of a reply. The usage of `login` is written without its code, which stands for code 0.
pub print : Reply → Bytes
print r =
    let rest = r.text ++ (codes "\n" ++ print_lines r.lines) in
    if r.code == 0 then rest else decimal r.code ++ (codes " " ++ rest)

-- `"database error: %d"`
unfoldable pub db_error : Error → Reply
db_error e = record { code = code_db; text = codes "database error: " ++ number e; lines = [] }
  where
    number : Error → Bytes
    number not_found = codes "-7"
    number minus_one = codes "-1"
    number (errno i) = format_int i
    number out_of_fuel = []

-- EAGAIN
unfoldable pub is_again : Error → Bool
is_again (errno i) = i == 11
is_again e = false

-- Why the body of a command ends early: it refuses, with `abort_transaction` or, where the body is one
-- that `leaves`, without it; a call has a result that is not 0; or it follows the null pointer of an
-- account without identifier.
pub data Stop (leaves : Bool) : Type 0 where
  refuse : Reply → Stop leaves
  leave : leaves ≡ true → Reply → Stop leaves
  failed : Error → Stop leaves
  null_pointer : Stop leaves

pub data Step (leaves : Bool) (A : Type 0) : Type 0 where
  go : A → Step leaves A
  stop : Stop leaves → Step leaves A

-- The body of a command, over what its transaction sees.
abbrev pub BodyOf : Bool → Type 0 → Type 0 → Type 0
BodyOf leaves S A = S → Step leaves A × S

-- A body that ends its transaction before every refusal, and one that does not.
abbrev pub Body : Type 0 → Type 0 → Type 0
Body = BodyOf false

abbrev pub LeavingBody : Type 0 → Type 0 → Type 0
LeavingBody = BodyOf true

infixl 5 ◌>>=◌ ◌>>◌
abbrev pub ◌>>=◌ : {b : Bool} {S A B : Type 0} → BodyOf b S A → (A → BodyOf b S B) → BodyOf b S B
◌>>=◌ m f s = let (r, s') = m s in elim r [ go a ↦ f a s' | stop e ↦ (stop e, s') ]

abbrev pub ◌>>◌ : {b : Bool} {S A B : Type 0} → BodyOf b S A → BodyOf b S B → BodyOf b S B
m >> k = m >>= λ _. k

module _ {b : Bool} {S A : Type 0} where
  abbrev pub pure : A → BodyOf b S A
  pure a s = (go a, s)

  abbrev pub halt : Stop b → BodyOf b S A
  halt e s = (stop e, s)

  -- `error_check` of a call of bom/.
  abbrev pub check : M S A → BodyOf b S A
  check m s = let (r, s') = m s in elim r [ ok a ↦ (go a, s') | err e ↦ (stop (failed e), s') ]

abbrev pub refuse_if : {b : Bool} {S : Type 0} → Bool → Reply → BodyOf b S (Unit {0})
refuse_if c r = if c then halt (refuse r) else pure tt

-- `shell`: whether it is authenticated, the account, the challenge that it has to answer, and the
-- transaction that the client has opened, as what that sees.
pub record Shell (S Z : Type 0) : Type 0 where
  pub status : Bool
  pub acct : Option Bytes
  pub challenge : Z
  pub parent : Option S

-- The identifier of the account, which is NULL before a login.
unfoldable pub caller : {b : Bool} {S : Type 0} → Option Bytes → BodyOf b S Bytes
caller none = halt null_pointer
caller (some id) = pure id

-- What the shells of a server share: `txn_begin`, `txn_commit` and `txn_abort` of Berkeley DB, and
-- the signal that starts a trader for two denominations.
pub record Server (S : Type 0) : Type 1 where
  pub World : Type 0
  pub txn_begin : World → Result S × World
  pub txn_commit : S → World → Result (Unit {0}) × World
  pub txn_abort : S → World → World
  pub signal : Bytes → Bytes → World → World

-- How the body of a command has ended. `spinning` is no end of the program: the fuel is used up.
pub data Ended (A : Type 0) : Type 0 where
  done : A → Ended A
  refused broken : Reply → Ended A
  crashed spinning : Ended A

pub data Answer : Type 0 where
  said : Reply → Answer
  no_answer spins : Answer
