-- ===== src/Bif/Hash/Lookup.antt =====
-- `hash_extract` looks the first entry of its key up (bif/common.cc).
use d_barter.Base.{
  ℕ, zero, suc, ◌+◌, ◌≤◌, ◌<◌, ◌≡◌, refl, ◌≢◌, inl, inr, some, List, [], ◌∷◌, ◌++◌, if◌then◌else◌,
  arith, All, length, length-append, Option-cases,
}
use d_barter.Base.Bytes.{break_at, break_at-append, Bytes, str_eq}
use d_barter.Bif.Hash.{
  line_of, behind_line, Search, found, missing, stuck, hash_search, hash_extract, hash_text,
}

-- A key holds no blank, and a value no newline.
abbrev pub IsEntry : Bytes × Bytes → Type 0
IsEntry (k, v) = All (λ c. c ≢ b' ') k × All (λ c. c ≢ 10) v

line_of-append : (v t : Bytes) → All (λ c. c ≢ 10) v → line_of (v ++ (10 ∷ t)) ≡ v
unfolding line_of
line_of-append [] t h = refl
line_of-append (c ∷ v) t h = ground (arith, line_of-append v t h.1, h.0)

behind_line-append : (v t : Bytes) → All (λ c. c ≢ 10) v → behind_line (v ++ (10 ∷ t)) ≡ t
unfolding behind_line
behind_line-append [] t h = refl
behind_line-append (c ∷ v) t h = ground (arith, behind_line-append v t h.1, h.0)

-- The first entry of a key, with the text of the entries behind it.
abbrev pub first_entry : Bytes → List (Bytes × Bytes) → Search
first_entry key [] = missing
first_entry key ((k, v) ∷ rest) =
    if str_eq k key then found v (hash_text rest) else first_entry key rest

hash_search-hash_text :
    (fuel : ℕ) (es : List (Bytes × Bytes)) (key : Bytes)
    → All IsEntry es
    → length (hash_text es) < fuel
    → hash_search fuel (hash_text es) key ≡ first_entry key es
unfolding hash_search hash_text
hash_search-hash_text zero es key h lt = absurd (omega arith)
hash_search-hash_text (suc fuel) [] key h lt = unfold break_at in refl
hash_search-hash_text (suc fuel) ((k, v) ∷ es) key h lt =
    rw (break_at-append b' ' k (v ++ (10 ∷ hash_text es)) h.0.0, hash_search)
      (rw (line_of-append v (hash_text es) h.0.1) (
        rw (behind_line-append v (hash_text es) h.0.1)
          (rw (hash_search-hash_text fuel es key h.1 (omega (arith, room))))))
  where
    room : length (hash_text es) + 2 ≤ length (k ++ (b' ' ∷ (v ++ (10 ∷ hash_text es))))
    room = omega (
      arith,
      length-append k (b' ' ∷ (v ++ (10 ∷ hash_text es))),
      length-append v (10 ∷ hash_text es),
    )

-- The loop ends on every text.
break_at-shorter :
    (d : ℕ) (p : Bytes) {w q : Bytes} → break_at d p ≡ some (w, q) → length q < length p
unfolding break_at
break_at-shorter d [] e = cc
break_at-shorter d (c ∷ s) e = elim (Option-cases (break_at d s)) [
  | inl n ↦ ground arith
  | inr ((w, q), m) ↦ ground (arith, break_at-shorter d s m)
]

length-behind_line-le : (q : Bytes) → length (behind_line q) ≤ length q
unfolding behind_line
length-behind_line-le [] = omega arith
length-behind_line-le (c ∷ q) = ground (arith, length-behind_line-le q)

hash_search-ne-stuck : (fuel : ℕ) (p key : Bytes) → length p < fuel → hash_search fuel p key ≢ stuck
unfolding hash_search
hash_search-ne-stuck zero p key lt = absurd (omega arith)
hash_search-ne-stuck (suc fuel) p key lt = elim (Option-cases (break_at b' ' p)) [
  | inl n ↦ rw (n, hash_search) (λ e. cc)
  | inr ((w, q), m) ↦
      rw (m, hash_search)
        (ground (
          arith,
          hash_search-ne-stuck fuel (behind_line q) key
              (omega (arith, break_at-shorter b' ' p m, length-behind_line-le q)),
        ))
]

-- On the text of any entries whose keys hold no blank and whose values hold no newline,
-- `hash_extract` returns the value of the first entry of the key and the text behind it, or NULL
-- where no entry has that key.
pub hash_extract-hash_text :
    (es : List (Bytes × Bytes)) (key : Bytes)
    → All IsEntry es
    → hash_extract (hash_text es) key ≡ first_entry key es
unfolding hash_extract
hash_extract-hash_text es key h =
    hash_search-hash_text (suc (length (hash_text es))) es key h (omega arith)

-- On any text at all the search ends.
pub hash_extract-ne-stuck : (hash key : Bytes) → hash_extract hash key ≢ stuck
unfolding hash_extract
hash_extract-ne-stuck hash key = hash_search-ne-stuck (suc (length hash)) hash key (omega arith)
