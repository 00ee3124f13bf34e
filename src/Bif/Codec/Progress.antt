-- ===== src/Bif/Codec/Progress.antt =====
-- Every call of the parser moves its pointer forward, so no loop of bif/common.cc runs for ever.
use d_barter.Base.{
  ℕ, zero, suc, ◌+◌, ◌≤◌, ◌<◌, ◌≡◌, ◌≢◌, refl, inl, inr, Bool, true, false, Option, none, some,
  List, [], ◌∷◌, arith, All, length, Bool-cases, Option-cases, subst, ◌==◌, leb,
}
use d_barter.Base.Bytes.{Bytes, IsChar, is_space, skip_spaces, length-skip_spaces-le}
use d_barter.Bif.Codec.{
  decode_oct, decode_hex, decode_escape, decode_character, decode_characters, push, decode_argument,
  decode_arguments, decode_string, cons_arg, skip_after, Parse, done, fail, stuck,
}

skip_spaces-All : (s : Bytes) → All IsChar s → All IsChar (skip_spaces s)
unfolding skip_spaces
skip_spaces-All [] h = tt
skip_spaces-All (c ∷ s) h = ground (arith, skip_spaces-All s h.1)

-- What is left of a string after an escape.
abbrev Left : Bytes → Option (ℕ × Bytes) → Type 0
Left s none = Unit
Left s (some (c, r)) = (c < 256) × (length r < length s) × All IsChar r

decode_oct-Left : (s : Bytes) → All IsChar s → Left s (decode_oct s)
unfolding decode_oct
decode_oct-Left [] h = tt
decode_oct-Left (a ∷ []) h = tt
decode_oct-Left (a ∷ b ∷ []) h = tt
decode_oct-Left (a ∷ b ∷ c ∷ s) h = ground arith

decode_hex-Left : (s : Bytes) → All IsChar s → Left s (decode_hex s)
unfolding decode_hex
decode_hex-Left [] h = tt
decode_hex-Left (a ∷ []) h = tt
decode_hex-Left (a ∷ b ∷ s) h = ground arith

decode_escape-Left : (s : Bytes) → All IsChar s → Left s (decode_escape s)
unfolding decode_escape
decode_escape-Left [] h = tt
decode_escape-Left (e ∷ s) h = ground (arith, decode_oct-Left (e ∷ s) h, decode_hex-Left s h.1)

-- What is left after a character: no more than before, and less unless the argument has ended.
abbrev Moves : Bytes → Option (ℕ × Bytes × Bool) → Type 0
Moves s none = Unit
Moves s (some (c, r, q)) =
    (c < 256) × (length r ≤ length s) × (c ≢ 0 → length r < length s) × All IsChar r

decode_character-Moves : (s : Bytes) (q : Bool) → All IsChar s → Moves s (decode_character s q)
unfolding decode_character
decode_character-Moves [] true h = tt
decode_character-Moves [] false h = ground arith
decode_character-Moves (c ∷ s) true h =
    ground (arith, decode_character-Moves s false h.1, decode_escape-Left s h.1)
decode_character-Moves (c ∷ s) false h = ground (
  arith,
  decode_character-Moves s true h.1,
  length-skip_spaces-le (c ∷ s),
  skip_spaces-All (c ∷ s) h,
)

-- The first character of an argument is always taken.
abbrev Takes : Bytes → Option (ℕ × Bytes × Bool) → Type 0
Takes s none = Unit
Takes s (some (c, r, q)) = length r < length s

decode_character-Takes :
    (c : ℕ) (s : Bytes)
    → All IsChar (c ∷ s)
    → is_space c ≡ false
    → Takes (c ∷ s) (decode_character (c ∷ s) false)
unfolding decode_character
decode_character-Takes c s h e = ground (arith, decode_character-Moves s true h.1)

-- The loop of `decode_argument` ends within the length of the text.
abbrev Ended : Bytes → Parse (Bytes × Bytes) → Type 0
Ended s (done (arg, r)) = (length r ≤ length s) × All IsChar r × All IsChar arg
Ended s fail = Unit
Ended s stuck = ⊥

Ended-push :
    (c : ℕ) (s t : Bytes) (p : Parse (Bytes × Bytes))
    → IsChar c
    → length s ≤ length t
    → Ended s p
    → Ended t (push c p)
Ended-push c s t (done (arg, r)) i le h = (omega arith, h.1, (i, h.2))
Ended-push c s t fail i le h = tt
Ended-push c s t stuck i le h = h

decode_characters-Ended :
    (fuel : ℕ) (s : Bytes) (q : Bool)
    → All IsChar s
    → length s < fuel
    → Ended s (decode_characters fuel s q)
unfolding decode_characters
decode_characters-Ended zero s q h lt = absurd (omega arith)
decode_characters-Ended (suc fuel) s q h lt = elim (Option-cases (decode_character s q)) [
  | inl e ↦ rw (e, decode_characters) tt
  | inr ((c, r, q'), e) ↦
      let m : Moves s (some (c, r, q')) = subst (Moves s) e (decode_character-Moves s q h) in
      elim (Bool-cases (c == 0)) [
        | inl z ↦ rw (e, decode_characters) (rw z (m.1, m.3, tt))
        | inr z ↦
            let shorter : length r < length s = m.2 (λ n. ground arith) in
            let char : IsChar c = record { positive = ground arith; small = m.0 } in
            rw (e, decode_characters)
              (rw z (
                Ended-push c r s (decode_characters fuel r q') char m.1
                  (decode_characters-Ended fuel r q' m.3 (omega arith))))
      ]
]

-- The same of `decode_argument`, which on a string that is not empty also moves.
abbrev Argued : Bytes → Parse (Bytes × Bytes) → Type 0
Argued s (done (arg, r)) = (length r < length s) × All IsChar r × All IsChar arg
Argued s fail = Unit
Argued s stuck = ⊥

Argued-Ended :
    (s t : Bytes) (p : Parse (Bytes × Bytes)) → length s < length t → Ended s p → Argued t p
Argued-Ended s t (done (arg, r)) lt h = (omega arith, h.1, h.2)
Argued-Ended s t fail lt h = tt
Argued-Ended s t stuck lt h = h

Argued-skip_after : (s : Bytes) (p : Parse (Bytes × Bytes)) → Argued s p → Argued s (skip_after p)
Argued-skip_after s (done (arg, r)) h =
    (omega (arith, length-skip_spaces-le r), skip_spaces-All r h.1, h.2)
Argued-skip_after s fail h = tt
Argued-skip_after s stuck h = h

decode_characters-Argued :
    (fuel c : ℕ) (s : Bytes)
    → All IsChar (c ∷ s)
    → is_space c ≡ false
    → length s < fuel
    → Argued (c ∷ s) (decode_characters (suc fuel) (c ∷ s) false)
unfolding decode_characters
decode_characters-Argued fuel c s h e lt = elim (Option-cases (decode_character (c ∷ s) false)) [
  | inl f ↦ rw (f, decode_characters) tt
  | inr ((d, r, q), f) ↦
      let m : Moves (c ∷ s) (some (d, r, q)) =
        subst (Moves (c ∷ s)) f (decode_character-Moves (c ∷ s) false h) in
      let t : length r < length (c ∷ s) =
        subst (Takes (c ∷ s)) f (decode_character-Takes c s h e) in
      elim (Bool-cases (d == 0)) [
        | inl z ↦ rw (f, decode_characters) (rw z (t, m.3, tt))
        | inr z ↦
            let char : IsChar d = record { positive = ground arith; small = m.0 } in
            rw (f, decode_characters)
              (rw z (
                Argued-Ended r (c ∷ s) (push d (decode_characters fuel r q)) t (
                  Ended-push d r r (decode_characters fuel r q) char (omega arith)
                    (decode_characters-Ended fuel r q m.3 (omega arith)))))
      ]
]

skip_spaces-space : (c : ℕ) (s : Bytes) → is_space c ≡ true → skip_spaces (c ∷ s) ≡ skip_spaces s
unfolding skip_spaces
skip_spaces-space c s e = rw e

skip_spaces-plain : (c : ℕ) (s : Bytes) → is_space c ≡ false → skip_spaces (c ∷ s) ≡ c ∷ s
unfolding skip_spaces
skip_spaces-plain c s e = rw e

decode_argument-Argued :
    (c : ℕ) (s : Bytes) → All IsChar (c ∷ s) → Argued (c ∷ s) (decode_argument (c ∷ s))
unfolding decode_argument
decode_argument-Argued c s h = elim (Bool-cases (is_space c)) [
  | inl e ↦
      let t = skip_spaces s in
      rw (skip_spaces-space c s e) (
        Argued-skip_after (c ∷ s) (decode_characters (suc (length t)) t false) (
          Argued-Ended t (c ∷ s) (decode_characters (suc (length t)) t false)
            (omega (arith, length-skip_spaces-le s))
            (decode_characters-Ended (suc (length t)) t false (skip_spaces-All s h.1)
              (omega arith))))
  | inr e ↦ rw (skip_spaces-plain c s e) (
      Argued-skip_after (c ∷ s) (decode_characters (suc (length (c ∷ s))) (c ∷ s) false)
        (decode_characters-Argued (length (c ∷ s)) c s h e (omega arith)))
]

-- What `decode_arguments` returns with `n` arguments behind it.
abbrev pub Bounded : ℕ → Parse (List Bytes) → Type 0
Bounded n (done args) = (n + length args ≤ 256) × All (All IsChar) args
Bounded n fail = Unit
Bounded n stuck = ⊥

Bounded-cons_arg :
    (n : ℕ) (a : Bytes) (p : Parse (List Bytes))
    → All IsChar a
    → Bounded (n + 1) p
    → Bounded n (cons_arg a p)
Bounded-cons_arg n a (done args) h b = (omega arith, (h, b.1))
Bounded-cons_arg n a fail h b = tt
Bounded-cons_arg n a stuck h b = b

decode_arguments-Bounded :
    (fuel n : ℕ) (s : Bytes)
    → All IsChar s
    → length s < fuel
    → n ≤ 256
    → Bounded n (decode_arguments fuel n s)
unfolding decode_arguments
decode_arguments-Bounded zero n s h lt le = absurd (omega arith)
decode_arguments-Bounded (suc fuel) n [] h lt le = (omega arith, tt)
decode_arguments-Bounded (suc fuel) n (c ∷ s) h lt le =
    next (decode_arguments-Bounded fuel) (decode_argument (c ∷ s)) refl
      (decode_argument-Argued c s h)
  where
    next :
        ((m : ℕ) (t : Bytes)
          → All IsChar t
          → length t < fuel
          → m ≤ 256
          → Bounded m (decode_arguments fuel m t))
        → (p : Parse (Bytes × Bytes)) → decode_argument (c ∷ s) ≡ p
        → Argued (c ∷ s) p
        → Bounded n (decode_arguments (suc fuel) n (c ∷ s))
    next ih fail e a = rw (e, decode_arguments) tt
    next ih stuck e a = absurd a
    next ih (done (arg, r)) e a = elim (Bool-cases (leb 256 n)) [
      | inl full ↦ rw (e, decode_arguments) (rw full tt)
      | inr room ↦
          rw (e, decode_arguments)
            (rw room (
              Bounded-cons_arg n arg (decode_arguments fuel (n + 1) r) a.2
                (ih (n + 1) r a.1 (omega arith) (ground arith))))
    ]

-- Every C string is either refused or gives at most 256 arguments, each of them a C string; no loop
-- of the parser runs on.
pub decode_string-Bounded : (s : Bytes) → All IsChar s → Bounded 0 (decode_string s)
unfolding decode_string
decode_string-Bounded s h =
    decode_arguments-Bounded (suc (length (skip_spaces s))) 0 (skip_spaces s) (skip_spaces-All s h)
      (omega arith) (omega arith)
