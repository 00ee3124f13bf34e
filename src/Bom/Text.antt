-- ===== src/Bom/Text.antt =====
-- The bytes that bom/db.cc, bom/value.cc and bom/event.cc put into a DBT: C strings with their NUL,
-- 32-bit numbers in host order (i386), flags in network order, keys of two strings, and values.
pub mod Numbers
use d_barter.Base.{
  ℕ, zero, suc, ◌+◌, ◌-◌, ◌*◌, ◌/◌, ◌%◌, ◌<◌, [], ◌∷◌, ◌++◌, ltb, ◌==◌, if◌then◌else◌, ◌≡◌, ◌≢◌,
  refl, All, arith, sym, ap, ◌∙◌,
}
use d_barter.Base.Bytes.{Bytes, codes}

-- `string_to_dbt`
unfoldable pub string_to_dbt : Bytes → Bytes
string_to_dbt s = s ++ (0 ∷ [])

-- A DBT read as a `char *`: up to the first NUL.
unfoldable pub dbt_to_string : Bytes → Bytes
dbt_to_string [] = []
dbt_to_string (c ∷ s) = if c == 0 then [] else c ∷ dbt_to_string s

-- `int32_to_dbt`, on a little-endian host.
unfoldable pub int32_to_dbt : ℕ → Bytes
int32_to_dbt i = i % 256 ∷ ((i / 256) % 256) ∷ ((i / 65536) % 256) ∷ ((i / 16777216) % 256) ∷ []

-- `htonl`, and `ntohl` of what was stored.
unfoldable pub flags_to_dbt : ℕ → Bytes
flags_to_dbt f = ((f / 16777216) % 256) ∷ ((f / 65536) % 256) ∷ ((f / 256) % 256) ∷ (f % 256) ∷ []

unfoldable pub dbt_to_flags : Bytes → ℕ
dbt_to_flags (a ∷ b ∷ c ∷ d ∷ _) = a * 16777216 + b * 65536 + c * 256 + d
dbt_to_flags _ = 0

-- The key of a holder and a denomination, or of two denominations: both strings with their NULs.
unfoldable pub pair_key : Bytes → Bytes → Bytes
unfolding string_to_dbt
pair_key a b = string_to_dbt a ++ string_to_dbt b

-- `%d` of a 32-bit number.
abbrev pub digits : ℕ → ℕ → Bytes → Bytes
digits zero n acc = acc
digits (suc fuel) n acc =
    let more = digits fuel (n / 10) ((n % 10 + 48) ∷ acc) in if n == 0 then acc else more

pub decimal : ℕ → Bytes
decimal n = if n == 0 then codes "0" else digits 20 n []

pub format_int : ℕ → Bytes
unfolding decimal
format_int n = if ltb n 2147483648 then decimal n else b'-' ∷ decimal (4294967296 - n)

-- A string of the program: no NUL inside.
abbrev pub NoNul : Bytes → Type 0
NoNul s = All (λ c. c ≢ 0) s

pub dbt_to_string-string_to_dbt : (s : Bytes) → NoNul s → dbt_to_string (string_to_dbt s) ≡ s
unfolding dbt_to_string string_to_dbt
dbt_to_string-string_to_dbt [] h = refl
dbt_to_string-string_to_dbt (c ∷ s) h = ground (arith, dbt_to_string-string_to_dbt s h.1, h.0)

pub dbt_to_flags-flags_to_dbt : (f : ℕ) → f < 4294967296 → dbt_to_flags (flags_to_dbt f) ≡ f
unfolding dbt_to_flags flags_to_dbt
dbt_to_flags-flags_to_dbt f lt = omega arith

-- `(char *)data + strlen((char *)data) + 1`
unfoldable pub behind_nul : Bytes → Bytes
behind_nul [] = []
behind_nul (c ∷ s) = if c == 0 then s else behind_nul s

pub dbt_to_string-append : (s t : Bytes) → NoNul s → dbt_to_string (string_to_dbt s ++ t) ≡ s
unfolding dbt_to_string string_to_dbt
dbt_to_string-append [] t h = refl
dbt_to_string-append (c ∷ s) t h = ground (arith, dbt_to_string-append s t h.1, h.0)

pub behind_nul-append : (s t : Bytes) → NoNul s → behind_nul (string_to_dbt s ++ t) ≡ t
unfolding behind_nul string_to_dbt
behind_nul-append [] t h = refl
behind_nul-append (c ∷ s) t h = ground (arith, behind_nul-append s t h.1, h.0)

-- The compound key determines both strings.
pub pair_key-injective :
    (a b c d : Bytes)
    → NoNul a
    → NoNul b
    → NoNul c
    → NoNul d
    → pair_key a b ≡ pair_key c d
    → (a ≡ c) × (b ≡ d)
unfolding pair_key
pair_key-injective a b c d ha hb hc hd e = (
  sym (dbt_to_string-append a (string_to_dbt b) ha)
      ∙ ap dbt_to_string e
      ∙ dbt_to_string-append c (string_to_dbt d) hc,
  sym (dbt_to_string-string_to_dbt b hb)
      ∙ ap dbt_to_string second
      ∙ dbt_to_string-string_to_dbt d hd,
)
  where
    second : string_to_dbt b ≡ string_to_dbt d
    second =
        sym (behind_nul-append a (string_to_dbt b) ha)
        ∙ ap behind_nul e
        ∙ behind_nul-append c (string_to_dbt d) hc
