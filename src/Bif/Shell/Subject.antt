-- ===== src/Bif/Shell/Subject.antt =====
-- What several commands of bif/shell.cc begin with: that an object exists, the flags of the caller, and
-- the account that a list is asked for.
use Prim.Native.String.{String}
use d_barter.Base.{Bool, not, List, [], ◌∷◌, if◌then◌else◌}
use d_barter.Base.Bytes.{Bytes, str_eq}
use d_barter.Bom.Store.{M, Store}
use d_barter.Bom.Acct
use d_barter.Bom.Acct.{is_super}
use d_barter.Bif.Shell.{
  reply, Body, pure, ◌>>=◌, ◌>>◌, check, refuse_if, code_noauth, code_notfound,
}

-- `if (!exists)`
unfoldable pub must_exist : {S : Type 0} → M S Bool → String → Body S (Unit {0})
must_exist exists text = do there ← check exists; refuse_if (not there) (reply code_notfound text)

module _ (db : Store) where
  open db use {State}

  -- `if (!(flags & ACCT_FLAG_SUPER))`
  unfoldable pub must_be_super : Bytes → String → Body State (Unit {0})
  must_be_super me text = do
    flags ← check (Acct.get_flags db me)
    refuse_if (not (is_super flags)) (reply code_noauth text)

  -- The account of `balance`, `note_list`, `denom_list` and `offer_list`: only a superuser may name
  -- another than the own.
  unfoldable pub subject : Bytes → List Bytes → Body State Bytes
  subject me [] = pure me
  subject me (other ∷ _) = if str_eq me other then pure me else (do
    must_be_super me "permission denied"
    must_exist (Acct.exists db other) "acct not found"
    pure other)
