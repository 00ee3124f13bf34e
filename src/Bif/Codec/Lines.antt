-- ===== src/Bif/Codec/Lines.antt =====
-- Whole lines: the argument vector survives `encode_string` and `decode_string` (bif/common.cc).
use d_barter.Base.{
  ℕ, zero, suc, ◌+◌, ◌≤◌, ◌<◌, ◌≡◌, ◌≢◌, refl, ◌∙◌, ap, subst, inl, inr, true, false, List, [], ◌∷◌,
  ◌++◌, arith, All, length, length-append, append_assoc, append-nil, Bool-cases,
}
use d_barter.Base.Bytes.{Bytes, IsChar, skip_spaces}
use d_barter.Bif.Codec.{
  decode_characters, decode_argument, decode_arguments, decode_string, contains_metacharacters,
  escape_all, encode_argument, encode_string, done,
}
use d_barter.Bif.Codec.RoundTrip.{
  Ends, skip_spaces_twice, decode_character-quote, decode_characters-escape_all,
  decode_characters-plain, length-escape_all-le,
}

-- The first byte of an encoded argument is no white space.
skip_spaces-encode_argument :
    (a t : Bytes) → skip_spaces (encode_argument a ++ t) ≡ encode_argument a ++ t
unfolding skip_spaces encode_argument
skip_spaces-encode_argument [] t = refl
skip_spaces-encode_argument (c ∷ s) t = ground arith

length-encode_argument-pos : (a : Bytes) → 0 < length (encode_argument a)
unfolding encode_argument
length-encode_argument-pos [] = omega arith
length-encode_argument-pos (c ∷ s) = ground arith

decode_characters-open :
    (fuel : ℕ) (t : Bytes) → decode_characters fuel (b'"' ∷ t) false ≡ decode_characters fuel t true
unfolding decode_characters
decode_characters-open zero t = refl
decode_characters-open (suc fuel) t = rw (decode_character-quote t false, decode_characters)

decode_characters-encode_argument :
    (fuel : ℕ) (a t : Bytes)
    → All IsChar a
    → Ends t
    → length a < fuel
    → decode_characters fuel (encode_argument a ++ t) false ≡ done (a, skip_spaces t)
unfolding encode_argument
decode_characters-encode_argument fuel [] t h e lt =
    decode_characters-open fuel (b'"' ∷ t)
    ∙ decode_characters-escape_all fuel [] t h e (omega arith)
decode_characters-encode_argument fuel (c ∷ s) t h e lt =
    elim (Bool-cases (contains_metacharacters (c ∷ s))) [
      | inl quoted ↦
          rw (quoted, append_assoc (escape_all (c ∷ s)) (b'"' ∷ []) t)
            (decode_characters-open fuel (escape_all (c ∷ s) ++ b'"' ∷ t)
              ∙ decode_characters-escape_all fuel (c ∷ s) t h e lt)
      | inr plain ↦ rw plain (decode_characters-plain fuel (c ∷ s) t h plain e lt)
    ]

length-encode_argument-le : (a : Bytes) → length a ≤ length (encode_argument a)
unfolding encode_argument
length-encode_argument-le [] = omega arith
length-encode_argument-le (c ∷ s) =
    ground (arith, length-append (escape_all (c ∷ s)) (b'"' ∷ []), length-escape_all-le (c ∷ s))

-- One argument, and the pointer behind the white space after it.
decode_argument-encode_argument :
    (a t : Bytes)
    → All IsChar a
    → Ends t
    → decode_argument (encode_argument a ++ t) ≡ done (a, skip_spaces t)
unfolding decode_argument
decode_argument-encode_argument a t h e =
    rw (skip_spaces-encode_argument a t, decode_argument) (rw read (rw (skip_spaces_twice t)))
  where
    read :
        decode_characters (suc (length (encode_argument a ++ t))) (encode_argument a ++ t) false
        ≡ done (a, skip_spaces t)
    read =
        decode_characters-encode_argument (suc (length (encode_argument a ++ t))) a t h e
          (omega (arith, length-append (encode_argument a) t, length-encode_argument-le a))

encode_argument-ne-nil : (a t : Bytes) → encode_argument a ++ t ≢ []
unfolding encode_argument
encode_argument-ne-nil [] t = λ e. cc
encode_argument-ne-nil (c ∷ s) t = ground arith

skip_spaces-encode_string :
    (args : List Bytes) → skip_spaces (encode_string args) ≡ encode_string args
unfolding encode_string
skip_spaces-encode_string [] = unfold skip_spaces in refl
skip_spaces-encode_string (a ∷ []) =
    subst (λ s. skip_spaces s ≡ s) (append-nil (encode_argument a))
      (skip_spaces-encode_argument a [])
skip_spaces-encode_string (a ∷ b ∷ args) = skip_spaces-encode_argument a _

skip_spaces-blank : (s : Bytes) → skip_spaces (b' ' ∷ s) ≡ skip_spaces s
unfolding skip_spaces
skip_spaces-blank s = refl

decode_arguments-step :
    (fuel n : ℕ) (src arg rest : Bytes) (args : List Bytes)
    → src ≢ []
    → n < 256
    → decode_argument src ≡ done (arg, rest)
    → decode_arguments fuel (n + 1) rest ≡ done args
    → decode_arguments (suc fuel) n src ≡ done (arg ∷ args)
unfolding decode_arguments
decode_arguments-step fuel n [] arg rest args ne lt e m = absurd (ne refl)
decode_arguments-step fuel n (c ∷ s) arg rest args ne lt e m =
    rw (e, decode_arguments) (ground arith)

decode_arguments-encode_string :
    (fuel n : ℕ) (args : List Bytes)
    → All (All IsChar) args
    → n + length args ≤ 256
    → length args < fuel
    → decode_arguments fuel n (encode_string args) ≡ done args
unfolding encode_string
decode_arguments-encode_string zero n args h le lt = absurd (omega arith)
decode_arguments-encode_string (suc fuel) n [] h le lt = unfold decode_arguments in refl
decode_arguments-encode_string (suc fuel) n (a ∷ []) h le lt =
    subst (λ s. decode_arguments (suc fuel) n s ≡ done (a ∷ [])) (append-nil (encode_argument a))
      (decode_arguments-step fuel n (encode_argument a ++ []) a [] [] (encode_argument-ne-nil a [])
        (omega arith) (unfold skip_spaces in decode_argument-encode_argument a [] h.0 tt)
        (decode_arguments-encode_string fuel (n + 1) [] tt (omega arith) (omega arith)))
decode_arguments-encode_string (suc fuel) n (a ∷ b ∷ args) h le lt =
    decode_arguments-step fuel n _ a (encode_string (b ∷ args)) (b ∷ args)
      (encode_argument-ne-nil a (b' ' ∷ encode_string (b ∷ args))) (omega arith)
      (decode_argument-encode_argument a (b' ' ∷ encode_string (b ∷ args)) h.0 refl
        ∙ ap (λ s. done (a, s))
            (skip_spaces-blank (encode_string (b ∷ args)) ∙ skip_spaces-encode_string (b ∷ args)))
      (decode_arguments-encode_string fuel (n + 1) (b ∷ args) h.1 (omega arith) (omega arith))

length-encode_string-le : (args : List Bytes) → length args ≤ length (encode_string args)
unfolding encode_string
length-encode_string-le [] = omega arith
length-encode_string-le (a ∷ []) = omega (arith, length-encode_argument-pos a)
length-encode_string-le (a ∷ b ∷ args) = omega (
  arith,
  length-append (encode_argument a) (b' ' ∷ encode_string (b ∷ args)),
  length-encode_string-le (b ∷ args),
)

-- Any vector of at most 256 C strings, quoted by `encode_string`, is what `decode_string` returns.
pub decode_string-encode_string :
    (args : List Bytes)
    → All (All IsChar) args
    → length args ≤ 256
    → decode_string (encode_string args) ≡ done args
unfolding decode_string
decode_string-encode_string args h le = rw (skip_spaces-encode_string args) (
    decode_arguments-encode_string (suc (length (encode_string args))) 0 args h (omega arith)
      (omega (arith, length-encode_string-le args)))
