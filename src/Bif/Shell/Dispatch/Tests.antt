-- ===== src/Bif/Shell/Dispatch/Tests.antt =====
-- Lines of a client, on the database in memory.
use d_barter.Base.{
  ℕ, ◌≡◌, ◌∙◌, refl, ap, arith, Bool, true, false, some, [], ◌∷◌, All, ltb, ◌&&◌, if◌then◌else◌,
  sym, Bool-cases, inl, inr,
}
use d_barter.Base.Bytes.{Bytes, codes, str_eq, IsChar}
use d_barter.Bom.Store.Memory.{Memory, no_rows, memory}
use d_barter.Dmath.Integer.Ones.{counts}
use d_barter.Dmath.Quantity.Powers.{powers, powers_ratio}
use d_barter.Bif.Shell.Txns.{cmd_txn_commit, txn_commit_of, txn_ended}
use d_barter.Bif.Codec.{done, encode_string, decode_string}
use d_barter.Bif.Codec.Lines.{decode_string-encode_string}
use d_barter.Bif.Shell.{Shell, Answer}
use d_barter.Bif.Shell.Transact.{Command, if_authenticated}
use d_barter.Bif.Shell.Open.{with_own}
use d_barter.Bif.Shell.Open.Commands.{is_answer}
use d_barter.Bif.Shell.Memory.{Committed, local, local-IsCounted}
use d_barter.Bif.Shell.Dispatch.{
  lower, same_case, find_command, command_table, txn_commit, run, command_lookup, obey, serve,
}
use d_barter.Bif.Shell.Dispatch.Closing.{forgetful, is_word_of, serve-open_txns}
use d_barter.Bif.Shell.Dispatch.Guarded.{is_open_line, is_open_word, serve-denies}

-- Whatever the case of its letters.
looked_up : command_lookup (codes "Txn_Commit") ≡ some txn_commit
unfolding command_lookup find_command command_table same_case lower str_eq
looked_up = refl

abbrev is_text : Bytes → Bool
is_text [] = true
is_text (c ∷ s) = if ltb 0 c && ltb c 256 then is_text s else false

is_text-IsChar : (s : Bytes) → is_text s ≡ true → All IsChar s
is_text-IsChar [] h = tt
is_text-IsChar (c ∷ s) h = elim (Bool-cases (ltb 0 c && ltb c 256)) [
  | inl e ↦ (
    record { positive = ground (arith, e); small = ground (arith, e) },
    is_text-IsChar s (sym (ap (λ b. if b then is_text s else false) e) ∙ h),
  )
  | inr e ↦ absurd (cc (sym (ap (λ b. if b then is_text s else false) e) ∙ h))
]

abbrev word : Bytes
word = codes "txn_commit"

known : command_lookup word ≡ some txn_commit
unfolding command_lookup find_command command_table same_case lower str_eq
known = refl

abbrev line : Bytes
line = encode_string (word ∷ [])

decoded : decode_string line ≡ done (word ∷ [])
decoded = decode_string-encode_string (word ∷ []) (is_text-IsChar word refl, tt) (omega arith)

abbrev challenge : ℕ → ℕ
challenge i = i

abbrev commit : Command local ℕ
commit = cmd_txn_commit memory local (word ∷ [])

served : serve memory local counts powers powers_ratio challenge (codes "id") 1 line ≡ some commit
unfolding serve obey run
served = rw (serve, decoded) (rw (obey, known) refl)

abbrev in_txn : Shell Memory ℕ
in_txn = record { status = true; acct = some (codes "jdb"); challenge = 0; parent = some no_rows }

-- The client's transaction, and another one.
abbrev w : Committed
w = record { data_of = no_rows; opened = 2 }

not_forgetful : forgetful (decode_string line) ≡ false
not_forgetful = ap forgetful decoded ∙ ap is_word_of known

answered : is_answer (commit in_txn w).0 ≡ true
unfolding cmd_txn_commit if_authenticated txn_commit_of txn_ended
answered = refl

serve-open_txns_example : (commit in_txn w).1.1.opened ≡ with_own (commit in_txn w).1.0.parent 1
serve-open_txns_example =
    serve-open_txns memory local local-IsCounted 1 counts powers powers_ratio challenge (codes "id")
      1 line commit in_txn w not_forgetful served refl answered

not_open : is_open_line (decode_string line) ≡ false
not_open = ap is_open_line decoded ∙ ap is_open_word known

abbrev unknown_client : Shell Memory ℕ
unknown_client = record in_txn { status = false }

serve-denies_example :
    (r : Answer) × ((w : Committed) → commit unknown_client w ≡ (r, (unknown_client, w)))
serve-denies_example =
    serve-denies memory local counts powers powers_ratio challenge (codes "id") 1 line commit
      unknown_client not_open served refl
