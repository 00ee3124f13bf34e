-- ===== src/Bif/Shell/ReadLine.antt =====
-- How bif/shell.cc reads a line from the connection of a client. The bytes that are still to come are
-- a list, at whose end `read` fails.
pub mod Whole
mod Tests
use d_barter.Base.{
  ℕ, suc, Bool, true, false, ◌&&◌, ◌==◌, leb, Option, none, some, [], ◌∷◌, if◌then◌else◌,
}
use d_barter.Base.Bytes.{Bytes}

-- READ_LINE_SUCCESS, with the bytes before the NUL that is written behind them, and the two errors.
pub data Line : Type 0 where
  success : Bytes → Line
  too_long error : Line

-- The bytes read so far stand in `acc`, the last of them first. `length > 0 && ... == '\r'`:
pub ends_cr : Bytes → Bool
ends_cr [] = false
ends_cr (c ∷ acc) = c == 13

-- The loop: the number of bytes read, the bytes, and what is left; `none` where `read` fails.
pub read_bytes : ℕ → Bytes → Bytes → Option (ℕ × (Bytes × Bytes))
unfolding ends_cr
read_bytes length acc [] = none
read_bytes length acc (c ∷ input) =
    let more = read_bytes (suc length) (c ∷ acc) input in
    if leb 65536 length
    then some (length, (acc, input))
    else if c == 10 && ends_cr acc
    then some (length, (acc, input))
    else more

-- The rest of a line that is too long.
pub skip_line : ℕ → Bytes → Bytes
skip_line lastc [] = []
skip_line lastc (c ∷ input) =
    let more = skip_line c input in if c == 10 && lastc == 13 then input else more

pub rev_onto : Bytes → Bytes → Bytes
rev_onto [] s = s
rev_onto (c ∷ acc) s = rev_onto acc (c ∷ s)

pub strip_cr : Bytes → Bytes
strip_cr [] = []
strip_cr (c ∷ acc) = if c == 13 then acc else c ∷ acc

-- What follows the loop. Where the length is LINE_LENGTH_MAX, what follows up to a line end is lost.
pub end_line : Option (ℕ × (Bytes × Bytes)) → Line × Bytes
unfolding strip_cr rev_onto skip_line
end_line none = (error, [])
end_line (some (length, (acc, rest))) =
    if length == 65536
    then (too_long, skip_line 0 rest)
    else (success (rev_onto (strip_cr acc) []), rest)

pub shell_read_line : Bytes → Line × Bytes
unfolding read_bytes end_line
shell_read_line input = end_line (read_bytes 0 [] input)
