-- ===== src/Bif/Codec/RoundTrip.antt =====
-- What `encode_string` writes, `decode_string` reads back (bif/common.cc).
use d_barter.Base.{
  ℕ, zero, suc, ◌/◌, ◌%◌, ◌≤◌, ◌<◌, ◌≡◌, refl, Bool, true, false, not, ◌&&◌, ◌||◌, none, some, [],
  ◌∷◌, ◌++◌, ◌==◌, arith, get_or, All, length, length-append, append_assoc,
}
use d_barter.Base.Bytes.{Bytes, IsChar, is_space, is_print, skip_spaces}
use d_barter.Bif.Codec.{
  hex_table, hex_value, encode_hex, decode_hex, decode_character, decode_characters, escape,
  escape_all, contains_metacharacters, done,
}

-- Over a small range a test is checked at every value.
unfoldable pub holds_below : (ℕ → Bool) → ℕ → Bool
holds_below test zero = true
holds_below test (suc limit) = holds_below test limit && test limit

pub digit_holds :
    (test : ℕ → Bool) (limit h : ℕ) → h < limit → holds_below test limit ≡ true → test h ≡ true
unfolding holds_below
digit_holds test zero h below all = absurd (omega arith)
digit_holds test (suc limit) h below all = ground (arith, digit_holds test limit h)

abbrev reads_back : ℕ → Bool
unfolding hex_value
reads_back h = elim (hex_value (get_or hex_table h 0)) [ none ↦ false | some v ↦ v == h ]

hex_digits_table : holds_below reads_back 16 ≡ true
unfolding holds_below hex_value
hex_digits_table = refl

hex_value-digit : (h : ℕ) → h < 16 → hex_value (get_or hex_table h 0) ≡ some h
unfolding hex_value
hex_value-digit h lt = ground (arith, digit_holds reads_back 16 h lt hex_digits_table)

decode_hex-encode_hex :
    (c : ℕ) (rest : Bytes) → c < 256 → decode_hex (encode_hex c ++ rest) ≡ some (c, rest)
unfolding decode_hex encode_hex
decode_hex-encode_hex c rest lt = ground (arith, hex_value-digit (c / 16), hex_value-digit (c % 16))

decode_character-escape :
    (c : ℕ) (rest : Bytes)
    → IsChar c
    → decode_character (escape c ++ rest) true ≡ some (c, rest, true)
unfolding decode_character escape
decode_character-escape c rest h = ground (arith, decode_hex-encode_hex c rest h.small)

-- Where an argument ends: at the end of the line, or before a blank.
abbrev pub Ends : Bytes → Type 0
Ends [] = Unit
Ends (c ∷ s) = c ≡ b' '

pub skip_spaces_twice : (s : Bytes) → skip_spaces (skip_spaces s) ≡ skip_spaces s
unfolding skip_spaces
skip_spaces_twice [] = refl
skip_spaces_twice (c ∷ s) = ground (arith, skip_spaces_twice s)

pub decode_character-end :
    (t : Bytes) → Ends t → decode_character t false ≡ some (0, skip_spaces t, false)
unfolding decode_character skip_spaces
decode_character-end [] h = refl
decode_character-end (c ∷ s) h = ground arith

pub decode_character-quote :
    (t : Bytes) (q : Bool) → decode_character (b'"' ∷ t) q ≡ decode_character t (not q)
unfolding decode_character
decode_character-quote t true = refl
decode_character-quote t false = refl

-- The text within quotes, up to the closing quote.
pub decode_characters-escape_all :
    (fuel : ℕ) (s t : Bytes)
    → All IsChar s
    → Ends t
    → length s < fuel
    → decode_characters fuel (escape_all s ++ b'"' ∷ t) true ≡ done (s, skip_spaces t)
unfolding decode_characters escape_all
decode_characters-escape_all zero s t h e lt = absurd (omega arith)
decode_characters-escape_all (suc fuel) [] t h e lt =
    rw (decode_character-quote t true, decode_characters) (rw (decode_character-end t e))
decode_characters-escape_all (suc fuel) (c ∷ s) t h e lt =
    rw (append_assoc (escape c) (escape_all s) (b'"' ∷ t)) (
      rw (decode_character-escape c (escape_all s ++ b'"' ∷ t) h.0, decode_characters)
        (ground (arith, decode_characters-escape_all fuel s t h.1 e (omega arith), h.0.positive)))

decode_character-plain :
    (c : ℕ) (t : Bytes)
    → IsChar c
    → (is_space c || c == b'"' || not (is_print c)) ≡ false
    → decode_character (c ∷ t) false ≡ some (c, t, false)
unfolding decode_character
decode_character-plain c t h p = ground arith

pub decode_characters-plain :
    (fuel : ℕ) (s t : Bytes)
    → All IsChar s
    → contains_metacharacters s ≡ false
    → Ends t
    → length s < fuel
    → decode_characters fuel (s ++ t) false ≡ done (s, skip_spaces t)
unfolding decode_characters contains_metacharacters
decode_characters-plain zero s t h p e lt = absurd (omega arith)
decode_characters-plain (suc fuel) [] t h p e lt = rw (decode_character-end t e, decode_characters)
decode_characters-plain (suc fuel) (c ∷ s) t h p e lt =
    rw (decode_character-plain c (s ++ t) h.0 (ground arith), decode_characters)
      (ground
        (arith, decode_characters-plain fuel s t h.1 (ground arith) e (omega arith), h.0.positive))

length-escape-pos : (c : ℕ) → 0 < length (escape c)
unfolding escape
length-escape-pos c = ground arith

pub length-escape_all-le : (s : Bytes) → length s ≤ length (escape_all s)
unfolding escape_all
length-escape_all-le [] = omega arith
length-escape_all-le (c ∷ s) =
    omega
      (arith, length-append (escape c) (escape_all s), length-escape-pos c, length-escape_all-le s)
