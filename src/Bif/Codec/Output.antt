-- ===== src/Bif/Codec/Output.antt =====
-- What `encode_string` writes: printable bytes only, and no more than it allocates (bif/common.cc).
use d_barter.Base.{
  ℕ, ◌+◌, ◌*◌, ◌/◌, ◌%◌, ◌≤◌, ◌<◌, ◌≡◌, refl, inl, inr, true, false, List, [], ◌∷◌, ◌++◌, arith,
  All, length, get_or, length-append, Bool-cases,
}
use d_barter.Base.Bytes.{Bytes, IsChar, is_print}
use d_barter.Bif.Codec.{
  hex_table, encode_hex, contains_metacharacters, escape, escape_all, encode_argument,
  encode_string, encode_room,
}
use d_barter.Bif.Codec.RoundTrip.{holds_below, digit_holds}

abbrev pub IsPrinted : ℕ → Type 0
IsPrinted c = is_print c ≡ true

All-append : (xs ys : Bytes) → All IsPrinted xs → All IsPrinted ys → All IsPrinted (xs ++ ys)
All-append [] ys h k = k
All-append (x ∷ xs) ys h k = (h.0, All-append xs ys h.1 k)

hex_digits_printed : holds_below (λ h. is_print (get_or hex_table h 0)) 16 ≡ true
unfolding holds_below
hex_digits_printed = refl

encode_hex-IsPrinted : (c : ℕ) → c < 256 → All IsPrinted (encode_hex c)
unfolding encode_hex
encode_hex-IsPrinted c lt = (digit (c / 16) (omega arith), (digit (c % 16) (omega arith), tt))
  where
    digit : (h : ℕ) → h < 16 → is_print (get_or hex_table h 0) ≡ true
    digit h k = digit_holds (λ n. is_print (get_or hex_table n 0)) 16 h k hex_digits_printed

escape-IsPrinted : (c : ℕ) → IsChar c → All IsPrinted (escape c)
unfolding escape
escape-IsPrinted c h = ground (arith, encode_hex-IsPrinted c h.small)

escape_all-IsPrinted : (s : Bytes) → All IsChar s → All IsPrinted (escape_all s)
unfolding escape_all
escape_all-IsPrinted [] h = tt
escape_all-IsPrinted (c ∷ s) h =
    All-append (escape c) (escape_all s) (escape-IsPrinted c h.0) (escape_all-IsPrinted s h.1)

plain-IsPrinted : (s : Bytes) → contains_metacharacters s ≡ false → All IsPrinted s
unfolding contains_metacharacters
plain-IsPrinted [] h = tt
plain-IsPrinted (c ∷ s) h = (ground arith, plain-IsPrinted s (ground arith))

encode_argument-IsPrinted : (a : Bytes) → All IsChar a → All IsPrinted (encode_argument a)
unfolding encode_argument
encode_argument-IsPrinted [] h = (refl, (refl, tt))
encode_argument-IsPrinted (c ∷ s) h = elim (Bool-cases (contains_metacharacters (c ∷ s))) [
  | inl quoted ↦
      rw quoted
        (refl, All-append (escape_all (c ∷ s)) _ (escape_all-IsPrinted (c ∷ s) h) (refl, tt))
  | inr plain ↦ rw plain (plain-IsPrinted (c ∷ s) plain)
]

encode_string-IsPrinted :
    (args : List Bytes) → All (All IsChar) args → All IsPrinted (encode_string args)
unfolding encode_string
encode_string-IsPrinted [] h = tt
encode_string-IsPrinted (a ∷ []) h = encode_argument-IsPrinted a h.0
encode_string-IsPrinted (a ∷ b ∷ args) h =
    All-append (encode_argument a) _ (encode_argument-IsPrinted a h.0)
      (refl, encode_string-IsPrinted (b ∷ args) h.1)

length-escape-le : (c : ℕ) → length (escape c) ≤ 4
unfolding escape encode_hex
length-escape-le c = ground arith

length-escape_all-le_room : (s : Bytes) → length (escape_all s) ≤ length s * 4
unfolding escape_all
length-escape_all-le_room [] = omega arith
length-escape_all-le_room (c ∷ s) = omega (
  arith,
  length-append (escape c) (escape_all s),
  length-escape-le c,
  length-escape_all-le_room s,
)

length-encode_argument-le_room : (a : Bytes) → length (encode_argument a) ≤ length a * 4 + 2
unfolding encode_argument
length-encode_argument-le_room [] = omega arith
length-encode_argument-le_room (c ∷ s) =
    ground
      (arith, length-append (escape_all (c ∷ s)) (b'"' ∷ []), length-escape_all-le_room (c ∷ s))

length-encode_string-le_room : (args : List Bytes) → length (encode_string args) ≤ encode_room args
unfolding encode_string encode_room
length-encode_string-le_room [] = omega arith
length-encode_string-le_room (a ∷ []) = omega (arith, length-encode_argument-le_room a)
length-encode_string-le_room (a ∷ b ∷ args) = omega (
  arith,
  length-append (encode_argument a) (b' ' ∷ encode_string (b ∷ args)),
  length-encode_argument-le_room a,
  length-encode_string-le_room (b ∷ args),
)

-- The encoding of C strings is printable ASCII throughout, so that it stays on one line, and it fits
-- into the bytes that `encode_string` allocates for it.
pub encode_string-IsPrinted_in_room :
    (args : List Bytes)
    → All (All IsChar) args
    → All IsPrinted (encode_string args) × (length (encode_string args) ≤ encode_room args)
encode_string-IsPrinted_in_room args h =
    (encode_string-IsPrinted args h, length-encode_string-le_room args)
