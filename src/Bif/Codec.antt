-- ===== src/Bif/Codec.antt =====
-- The quoting of argument lists (bif/common.cc): what the client and the server write on a line of
-- the wire protocol, and how the other side takes it apart. A C string is a list of bytes with no 0;
-- the pointer into it is the rest of the list. The result -1 is `fail` or `none`; `stuck` is the
-- fuel of a loop run out.
mod Tests
pub mod RoundTrip
pub mod Lines
pub mod Progress
pub mod Output
use d_barter.Base.{
  ℕ, zero, suc, ◌+◌, ◌-◌, ◌*◌, ◌/◌, ◌%◌, Bool, true, false, not, ◌&&◌, ◌||◌, Option, none, some,
  List, [], ◌∷◌, ◌++◌, ltb, leb, ◌==◌, if◌then◌else◌, get_or, length,
}
use d_barter.Base.Bytes.{Bytes, codes, is_space, is_print, skip_spaces}

-- The outcome of a parse: -1 is `fail`; `stuck` is a loop that has used up its fuel.
pub data Parse {ℓ} (A : Type ℓ) : Type ℓ where
  done : A → Parse A
  fail : Parse A
  stuck : Parse A

abbrev pub push : ℕ → Parse (Bytes × Bytes) → Parse (Bytes × Bytes)
push c (done (cs, rest)) = done (c ∷ cs, rest)
push c fail = fail
push c stuck = stuck

abbrev pub cons_arg : Bytes → Parse (List Bytes) → Parse (List Bytes)
cons_arg a (done args) = done (a ∷ args)
cons_arg a fail = fail
cons_arg a stuck = stuck

-- The white space behind an argument is skipped.
abbrev pub skip_after : Parse (Bytes × Bytes) → Parse (Bytes × Bytes)
skip_after (done (arg, rest)) = done (arg, skip_spaces rest)
skip_after fail = fail
skip_after stuck = stuck

-- `decode_oct`: three octal digits, the first at most 3, below a pointer that moves past them.
pub decode_oct : Bytes → Option (ℕ × Bytes)
decode_oct (a ∷ b ∷ c ∷ s) =
    if ltb a b'0' || ltb b'3' a
    then none
    else if ltb b b'0' || ltb b'7' b
    then none
    else if ltb c b'0' || ltb b'7' c
    then none
    else some ((c - b'0') + 8 * (b - b'0') + 64 * (a - b'0'), s)
decode_oct _ = none

abbrev hex_table : Bytes
hex_table = codes "0123456789abcdef"

-- `encode_hex`: the two digits of a byte.
pub encode_hex : ℕ → Bytes
encode_hex c = get_or hex_table (c / 16) 0 ∷ get_or hex_table (c % 16) 0 ∷ []

-- One digit of `decode_hex`.
hex_value : ℕ → Option ℕ
hex_value c =
    if leb b'0' c && leb c b'9'
    then some (c - b'0')
    else if leb b'a' c && leb c b'f'
    then some (c + 10 - b'a')
    else if leb b'A' c && leb c b'F'
    then some (c + 10 - b'A')
    else none

pub decode_hex : Bytes → Option (ℕ × Bytes)
unfolding hex_value
decode_hex (a ∷ b ∷ s) = elim (hex_value a) [
  | none ↦ none
  | some h ↦ elim (hex_value b) [ none ↦ none | some l ↦ some ((h * 16 + l) % 256, s) ]
]
decode_hex _ = none

-- The inner `switch` of `decode_character`: the pointer is behind a backslash within quotes.
pub decode_escape : Bytes → Option (ℕ × Bytes)
decode_escape [] = none
decode_escape (e ∷ s) =
    if e == b'"' || e == b'\\'
    then some (e, s)
    else if e == b'f'
    then some (12, s)
    else if e == b'n'
    then some (10, s)
    else if e == b'r'
    then some (13, s)
    else if e == b't'
    then some (9, s)
    else if e == b'a'
    then some (7, s)
    else if e == b'b'
    then some (8, s)
    else if e == b'v'
    then some (11, s)
    else if leb b'0' e && leb e b'3'
    then decode_oct (e ∷ s)
    else if e == b'x'
    then decode_hex s
    else none

-- Adds the quoting state, which an escape leaves alone.
abbrev still_quoted : Option (ℕ × Bytes) → Option (ℕ × Bytes × Bool)
still_quoted none = none
still_quoted (some (c, s)) = some (c, s, true)

-- `decode_character`: the character, the pointer, and whether quotes are open. The character 0 ends
-- an argument. A quote turns the state and `goto begin`s.
pub decode_character : Bytes → Bool → Option (ℕ × Bytes × Bool)
unfolding decode_escape
decode_character [] true = none
decode_character [] false = some (0, [], false)
decode_character (c ∷ s) quoteq =
    let after_quote = decode_character s (not quoteq) in
    if not (is_print c) && (quoteq || not (c == 0))
    then none
    else if not quoteq && (c == 0 || is_space c)
    then some (0, skip_spaces (c ∷ s), quoteq)
    else if is_space c
    then some (c, s, quoteq)
    else if c == b'"'
    then after_quote
    else if c == b'\\' && quoteq
    then still_quoted (decode_escape s)
    else some (c, s, quoteq)

-- The `do` loop of `decode_argument`: the characters up to the character 0, and the pointer there.
pub decode_characters : ℕ → Bytes → Bool → Parse (Bytes × Bytes)
decode_characters zero s quoteq = stuck
decode_characters (suc fuel) s quoteq = elim (decode_character s quoteq) [
  | none ↦ fail
  | some (c, rest, quoteq') ↦
      let more : Parse (Bytes × Bytes) = push c (decode_characters fuel rest quoteq') in
      if c == 0 then done ([], rest) else more
]

-- `decode_argument`: one argument, with the white space on both sides.
pub decode_argument : Bytes → Parse (Bytes × Bytes)
decode_argument src =
    let s = skip_spaces src in skip_after (decode_characters (suc (length s)) s false)

-- The loop of `decode_string`, with `n` arguments behind it: the 257th is refused.
pub decode_arguments : ℕ → ℕ → Bytes → Parse (List Bytes)
decode_arguments zero n src = stuck
decode_arguments (suc fuel) n [] = done []
decode_arguments (suc fuel) n (c ∷ s) = elim (decode_argument (c ∷ s)) [
  | fail ↦ fail
  | stuck ↦ stuck
  | done (arg, rest) ↦
      let more : Parse (List Bytes) = cons_arg arg (decode_arguments fuel (n + 1) rest) in
      if leb 256 n then fail else more
]

-- `decode_string`: the argument vector of a line.
pub decode_string : Bytes → Parse (List Bytes)
decode_string src = let s = skip_spaces src in decode_arguments (suc (length s)) 0 s

-- `contains_metacharacters`: whether an argument has to be quoted.
pub contains_metacharacters : Bytes → Bool
contains_metacharacters [] = false
contains_metacharacters (c ∷ s) =
    is_space c || c == b'"' || not (is_print c) || contains_metacharacters s

-- The `switch` of `encode_string`: a character within quotes.
pub escape : ℕ → Bytes
unfolding encode_hex
escape c =
    if c == 7
    then codes "\\a"
    else if c == 10
    then codes "\\n"
    else if c == 12
    then codes "\\f"
    else if c == 11
    then codes "\\v"
    else if c == 8
    then codes "\\b"
    else if c == 9
    then codes "\\t"
    else if c == 13
    then codes "\\r"
    else if c == b'"'
    then b'\\' ∷ b'"' ∷ []
    else if c == b'\\'
    then b'\\' ∷ b'\\' ∷ []
    else if is_print c
    then c ∷ []
    else b'\\' ∷ b'x' ∷ encode_hex c

pub escape_all : Bytes → Bytes
unfolding escape
escape_all [] = []
escape_all (c ∷ s) = escape c ++ escape_all s

-- One argument as `encode_string` writes it.
pub encode_argument : Bytes → Bytes
unfolding escape_all contains_metacharacters
encode_argument [] = b'"' ∷ b'"' ∷ []
encode_argument (c ∷ s) =
    if contains_metacharacters (c ∷ s) then b'"' ∷ (escape_all (c ∷ s) ++ b'"' ∷ []) else c ∷ s

-- `encode_string`: the arguments with a blank between any two.
pub encode_string : List Bytes → Bytes
unfolding encode_argument
encode_string [] = []
encode_string (a ∷ []) = encode_argument a
encode_string (a ∷ b ∷ rest) = encode_argument a ++ b' ' ∷ encode_string (b ∷ rest)

-- The bytes that `encode_string` allocates, without the terminating NUL.
pub encode_room : List Bytes → ℕ
encode_room [] = 0
encode_room (a ∷ rest) = length a * 4 + 3 + encode_room rest
