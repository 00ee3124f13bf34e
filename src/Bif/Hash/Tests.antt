-- ===== src/Bif/Hash/Tests.antt =====
-- Runs of `hash_extract` at fixed inputs.
use d_barter.Base.{◌≡◌, ◌≢◌, refl, List, [], ◌∷◌, All}
use d_barter.Base.Bytes.{break_at, Bytes, codes, str_eq}
use d_barter.Bif.Hash.{missing, stuck, line_of, behind_line, hash_search, hash_extract, hash_text}
use d_barter.Bif.Hash.Lookup.{IsEntry, first_entry, hash_extract-hash_text, hash_extract-ne-stuck}

abbrev two_entries : List (Bytes × Bytes)
two_entries = (codes "a", codes "1 2") ∷ (codes "b", codes "3") ∷ []

two_entries-IsEntry : All IsEntry two_entries
two_entries-IsEntry =
    (((λ e. cc, tt), (λ e. cc, (λ e. cc, (λ e. cc, tt)))), (((λ e. cc, tt), (λ e. cc, tt)), tt))

-- A line without a blank hides the next line.
hash_extract_swallowed : hash_extract (codes "x\na 1\nb 2\n") (codes "a") ≡ missing
unfolding hash_extract hash_search break_at line_of behind_line str_eq
hash_extract_swallowed = refl

hash_extract-hash_text_example :
    hash_extract (hash_text two_entries) (codes "b") ≡ first_entry (codes "b") two_entries
hash_extract-hash_text_example = hash_extract-hash_text two_entries (codes "b") two_entries-IsEntry

hash_extract-ne-stuck_example : hash_extract (codes "x\na 1\nb 2\n") (codes "a") ≢ stuck
hash_extract-ne-stuck_example = hash_extract-ne-stuck (codes "x\na 1\nb 2\n") (codes "a")
