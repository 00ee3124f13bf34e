-- ===== src/Base/Bytes.antt =====
-- C strings as lists of bytes. The terminating NUL is the end of the list: a string of the program
-- holds no 0, and reading at the end reads 0. `isspace` and `isprint` are those of the C locale.
use Prim.Native.Char.{code}
use Prim.Native.String.{String}
use Prim.Native.Nat.{ℕ, ◌+◌, ◌-◌, ◌*◌, ◌%◌, ◌≤◌, ◌<◌}
use mathlib.Core.Path.{◌≡◌, refl}
use mathlib.Core.Logic.{◌↔◌, ◌≢◌}
use mathlib.Core.Bool.{Bool, true, false, ◌&&◌, ◌||◌}
use mathlib.Core.List.{List, [], ◌∷◌, ◌++◌}
use mathlib.Core.Option.{Option, none, some}
use native.Mathlib.Omega.{arith}
use d_barter.Base.Tests.{leb, ◌==◌, if◌then◌else◌}
use d_barter.Base.Lists.{length, All}

abbrev pub Bytes : Type 0
Bytes = List ℕ

-- The bytes of an ASCII literal.
abbrev pub codes : String → Bytes
codes String.[] = []
codes (String.◌∷◌ c s) = code c ∷ codes s

abbrev pub is_space : ℕ → Bool
is_space c = (leb 9 c && leb c 13) || c == 32

abbrev pub is_print : ℕ → Bool
is_print c = leb 32 c && leb c 126

-- `while (isspace(*s)) s++;`
unfoldable pub skip_spaces : Bytes → Bytes
skip_spaces [] = []
skip_spaces (c ∷ s) = if is_space c then skip_spaces s else c ∷ s

pub length-skip_spaces-le : (s : Bytes) → length (skip_spaces s) ≤ length s
unfolding skip_spaces
length-skip_spaces-le [] = omega arith
length-skip_spaces-le (c ∷ s) = ground (arith, length-skip_spaces-le s)

abbrev pub before : ℕ → Option (Bytes × Bytes) → Option (Bytes × Bytes)
before c none = none
before c (some (word, q)) = some (c ∷ word, q)

-- `strchr(p, d)` with a NUL put there: the text before the first `d`, and the text behind it.
unfoldable pub break_at : ℕ → Bytes → Option (Bytes × Bytes)
break_at d [] = none
break_at d (c ∷ s) = if c == d then some ([], s) else before c (break_at d s)

pub break_at-append :
    (d : ℕ) (k t : Bytes) → All (λ c. c ≢ d) k → break_at d (k ++ (d ∷ t)) ≡ some (k, t)
unfolding break_at
break_at-append d [] t h = ground arith
break_at-append d (c ∷ k) t h = ground (arith, break_at-append d k t h.1, h.0)

-- The number that `strtoul(s, NULL, 10)` reads, with an unsigned long of 32 bits.
abbrev pub is_digit : ℕ → Bool
is_digit c = leb 48 c && leb c 57

unfoldable pub read_digits : ℕ → Bytes → ℕ
read_digits n [] = n
read_digits n (c ∷ s) =
    let more = read_digits (n * 10 + (c - 48)) s in if is_digit c then more else n

abbrev pub saturated : ℕ → ℕ
saturated n = if leb n 4294967295 then n else 4294967295

unfoldable pub strtoul_signed : Bytes → ℕ
strtoul_signed [] = 0
strtoul_signed (c ∷ s) =
    if c == 45
    then (4294967296 - saturated (read_digits 0 s)) % 4294967296
    else if c == 43
    then saturated (read_digits 0 s)
    else saturated (read_digits 0 (c ∷ s))

unfoldable pub strtoul : Bytes → ℕ
strtoul s = strtoul_signed (skip_spaces s)

-- `strstr(s, t) != NULL`
unfoldable pub is_prefix : Bytes → Bytes → Bool
is_prefix [] s = true
is_prefix (c ∷ t) [] = false
is_prefix (c ∷ t) (d ∷ s) = c == d && is_prefix t s

unfoldable pub strstr : Bytes → Bytes → Bool
strstr [] t = is_prefix t []
strstr (c ∷ s) t = is_prefix t (c ∷ s) || strstr s t

-- `strcmp(s, t) == 0`
unfoldable pub str_eq : Bytes → Bytes → Bool
str_eq [] [] = true
str_eq [] (d ∷ t) = false
str_eq (c ∷ s) [] = false
str_eq (c ∷ s) (d ∷ t) = c == d && str_eq s t

pub str_eq_refl : (s : Bytes) → str_eq s s ≡ true
unfolding str_eq
str_eq_refl [] = refl
str_eq_refl (c ∷ s) = ground (arith, str_eq_refl s)

pub eq_of_str_eq : (s t : Bytes) → str_eq s t ≡ true → s ≡ t
unfolding str_eq
eq_of_str_eq [] [] h = refl
eq_of_str_eq [] (d ∷ t) h = cc
eq_of_str_eq (c ∷ s) [] h = cc
eq_of_str_eq (c ∷ s) (d ∷ t) h = ground (arith, eq_of_str_eq s t)

pub str_eq_iff : (s t : Bytes) → (str_eq s t ≡ true) ↔ (s ≡ t)
str_eq_iff s t = (eq_of_str_eq s t, λ e. rw e (str_eq_refl t))

-- A byte of a C string.
pub record IsChar (c : ℕ) : Type 0 where
  pub positive : 0 < c
  pub small : c < 256
