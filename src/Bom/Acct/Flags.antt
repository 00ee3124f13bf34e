-- ===== src/Bom/Acct/Flags.antt =====
-- The flags of an account as text (bom/acct.cc).
pub mod RoundTrip
use d_barter.Base.{
  ℕ, zero, suc, ◌+◌, ◌*◌, ◌/◌, ◌%◌, Option, none, some, List, [], ◌∷◌, ◌++◌, ◌==◌, if◌then◌else◌,
  length,
}
use d_barter.Base.Bytes.{Bytes, codes, is_space, skip_spaces, str_eq}

-- `acct_flag_string`
pub flag_names : List Bytes
flag_names = codes "super" ∷ codes "issuer" ∷ codes "txn" ∷ []

-- The loop over the names: each flag that is set, from the `f & 1` on, with a space behind it.
pub spell_flags : List Bytes → ℕ → Bytes
spell_flags [] f = []
spell_flags (name ∷ names) f =
    let rest = spell_flags names (f / 2) in if f % 2 == 1 then name ++ b' ' ∷ rest else rest

-- The last space is cut off.
pub drop_last : Bytes → Bytes
drop_last [] = []
drop_last (c ∷ []) = []
drop_last (c ∷ d ∷ s) = c ∷ drop_last (d ∷ s)

pub acct_flags_to_string : ℕ → Bytes
acct_flags_to_string f = drop_last (spell_flags flag_names f)

-- A word, and what stands behind it and the spaces after it.
pub split_word : Bytes → Bytes × Bytes
split_word [] = ([], [])
split_word (c ∷ s) =
    let (word, p) = split_word s in if is_space c then ([], skip_spaces s) else (c ∷ word, p)

-- `*fp |= (1 << i)`, where `bit` is `1 << i`.
abbrev pub set_bit : ℕ → ℕ → ℕ
set_bit f bit = if (f / bit) % 2 == 1 then f else f + bit

-- The loop over the names for one word; `none` is the empty name at the end.
pub find_flag : List Bytes → ℕ → Bytes → Option ℕ
find_flag [] bit word = none
find_flag (name ∷ names) bit word =
    if str_eq word name then some bit else find_flag names (bit * 2) word

-- The loop over the words, on fuel.
pub read_flags : ℕ → Bytes → ℕ → Option ℕ
read_flags zero s f = none
read_flags (suc fuel) [] f = some f
read_flags (suc fuel) (c ∷ s) f =
    let (word, p) = split_word (c ∷ s) in
    elim (find_flag flag_names 1 word) [
      | none ↦ none
      | some bit ↦ read_flags fuel p (set_bit f bit)
    ]

-- `string_to_acct_flags`: `none` is -1. Every word has a character, so that the length of the text is
-- enough fuel.
pub string_to_acct_flags : Bytes → Option ℕ
string_to_acct_flags s = read_flags (suc (length s)) (skip_spaces s) 0
