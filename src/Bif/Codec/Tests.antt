-- ===== src/Bif/Codec/Tests.antt =====
-- Runs of the codec at fixed inputs.
use d_barter.Base.{ℕ, ◌<◌, ◌≤◌, ◌≡◌, refl, [], ◌∷◌, List, All, arith, length}
use d_barter.Base.Bytes.{Bytes, codes, skip_spaces, IsChar}
use d_barter.Bif.Codec.{
  done, fail, decode_hex, decode_character, decode_characters, decode_argument, decode_arguments,
  decode_string, encode_string, encode_room,
}
use d_barter.Bif.Codec.Lines.{decode_string-encode_string}
use d_barter.Bif.Codec.Progress.{Bounded, decode_string-Bounded}
use d_barter.Bif.Codec.Output.{IsPrinted, encode_string-IsPrinted_in_room}

abbrev three_arguments : List Bytes
three_arguments = codes "a" ∷ [] ∷ (b'b' ∷ 32 ∷ 200 ∷ 10 ∷ []) ∷ []

encode_three : encode_string three_arguments ≡ codes "a \"\" \"b \\xc8\\n\""
unfolding encode_string
encode_three = refl

decode_three : decode_string (codes "a \"\" \"b \\xc8\\n\"") ≡ done three_arguments
unfolding decode_string decode_arguments decode_argument decode_characters decode_character
    decode_hex skip_spaces
decode_three = refl

-- An unclosed quote, and a NUL that an escape makes.
decode_unclosed : decode_string (codes "a \"b") ≡ fail
unfolding decode_string decode_arguments decode_argument decode_characters decode_character
    decode_hex skip_spaces
decode_unclosed = refl

decode_escaped_nul : decode_string (codes "\"a\\x00b\\061\"") ≡ fail
unfolding decode_string decode_arguments decode_argument decode_characters decode_character
    decode_hex skip_spaces
decode_escaped_nul = refl

char : (c : ℕ) → 0 < c → c < 256 → IsChar c
char c p l = record { positive = p; small = l }

three_arguments-IsChar : All (All IsChar) three_arguments
three_arguments-IsChar = (
  (char _ (omega arith) (omega arith), tt),
  (
    tt,
    (
      (
        char _ (omega arith) (omega arith),
        (
          char _ (omega arith) (omega arith),
          (char _ (omega arith) (omega arith), (char _ (omega arith) (omega arith), tt)),
        ),
      ),
      tt,
    ),
  ),
)

abbrev loose_line : Bytes
loose_line = codes " a  \"b"

loose_line-IsChar : All IsChar loose_line
loose_line-IsChar = (
  char _ (omega arith) (omega arith),
  (
    char _ (omega arith) (omega arith),
    (
      char _ (omega arith) (omega arith),
      (
        char _ (omega arith) (omega arith),
        (char _ (omega arith) (omega arith), (char _ (omega arith) (omega arith), tt)),
      ),
    ),
  ),
)

abbrev escaped_line : Bytes
escaped_line = codes "\"\\x41\""

escaped_line-IsChar : All IsChar escaped_line
escaped_line-IsChar = (
  char _ (omega arith) (omega arith),
  (
    char _ (omega arith) (omega arith),
    (
      char _ (omega arith) (omega arith),
      (
        char _ (omega arith) (omega arith),
        (char _ (omega arith) (omega arith), (char _ (omega arith) (omega arith), tt)),
      ),
    ),
  ),
)

decode_escaped_line : decode_string escaped_line ≡ done (codes "A" ∷ [])
unfolding decode_string decode_arguments decode_argument decode_characters decode_character
    decode_hex skip_spaces
decode_escaped_line = refl

decode_string-encode_string_example :
    decode_string (encode_string three_arguments) ≡ done three_arguments
decode_string-encode_string_example =
    decode_string-encode_string three_arguments three_arguments-IsChar (omega arith)

decode_string-Bounded_example : Bounded 0 (decode_string loose_line)
decode_string-Bounded_example = decode_string-Bounded loose_line loose_line-IsChar

encode_string-IsPrinted_in_room_example :
    All IsPrinted (encode_string three_arguments)
    × (length (encode_string three_arguments) ≤ encode_room three_arguments)
encode_string-IsPrinted_in_room_example =
    encode_string-IsPrinted_in_room three_arguments three_arguments-IsChar
