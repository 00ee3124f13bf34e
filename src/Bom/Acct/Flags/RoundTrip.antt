-- ===== src/Bom/Acct/Flags/RoundTrip.antt =====
-- The flags of an account are read back from their text (bom/acct.cc).
use d_barter.Base.{
  ℕ, ◌+◌, ◌/◌, ◌%◌, ◌≡◌, refl, ap, ◌∙◌, Bool, true, false, some, ◌==◌, if◌then◌else◌, arith, ◌++◌,
}
use d_barter.Base.Bytes.{Bytes, codes, skip_spaces, str_eq}
use d_barter.Bom.Acct.Flags.{
  flag_names, spell_flags, drop_last, acct_flags_to_string, split_word, find_flag, read_flags,
  string_to_acct_flags,
}

-- The text of three bits.
spelled : Bool → Bool → Bool → Bytes
spelled a b c =
    let txn = if c then codes "txn " else codes "" in
    let issuer = if b then codes "issuer " ++ txn else txn in
    if a then codes "super " ++ issuer else issuer

bits : Bool → Bool → Bool → ℕ
bits a b c = (if a then 1 else 0) + (if b then 2 else 0) + (if c then 4 else 0)

read_bits : (a b c : Bool) → string_to_acct_flags (drop_last (spelled a b c)) ≡ some (bits a b c)
unfolding spelled bits drop_last string_to_acct_flags read_flags split_word find_flag flag_names
    skip_spaces str_eq
read_bits true true true = refl
read_bits true true false = refl
read_bits true false true = refl
read_bits true false false = refl
read_bits false true true = refl
read_bits false true false = refl
read_bits false false true = refl
read_bits false false false = refl

bits-mod : (f : ℕ) → bits (f % 2 == 1) ((f / 2) % 2 == 1) ((f / 2 / 2) % 2 == 1) ≡ f % 8
unfolding bits
bits-mod f = ground arith

-- The text of a set of flags reads back as the three flags that have a name.
pub string_to_acct_flags-acct_flags_to_string :
    (f : ℕ) → string_to_acct_flags (acct_flags_to_string f) ≡ some (f % 8)
unfolding acct_flags_to_string spell_flags flag_names spelled
string_to_acct_flags-acct_flags_to_string f =
    read_bits (f % 2 == 1) ((f / 2) % 2 == 1) ((f / 2 / 2) % 2 == 1) ∙ ap some (bits-mod f)
