-- ===== src/Bif/Hash.antt =====
-- `hash_extract` (bif/common.cc): the value of a key in a text of lines `key value`, and the text
-- behind that line. A pointer into the text is the rest of it; `none` is NULL.
pub mod Lookup
mod Tests
use d_barter.Base.{
  ℕ, zero, suc, Bool, true, false, Option, none, some, List, [], ◌∷◌, ◌++◌, ◌==◌, if◌then◌else◌,
  length,
}
use d_barter.Base.Bytes.{break_at, Bytes, str_eq}

-- Up to the end of the line, and behind it.
pub line_of : Bytes → Bytes
line_of [] = []
line_of (c ∷ s) = if c == 10 then [] else c ∷ line_of s

pub behind_line : Bytes → Bytes
behind_line [] = []
behind_line (c ∷ s) = if c == 10 then s else behind_line s

-- The outcome of the loop: the value and the text behind its line, NULL, or fuel run out.
pub data Search : Type 0 where
  found : Bytes → Bytes → Search
  missing : Search
  stuck : Search

pub hash_search : ℕ → Bytes → Bytes → Search
hash_search zero p key = stuck
hash_search (suc fuel) p key = elim (break_at b' ' p) [
  | none ↦ missing
  | some (word, q) ↦
      let more = hash_search fuel (behind_line q) key in
      if str_eq word key then found (line_of q) (behind_line q) else more
]

pub hash_extract : Bytes → Bytes → Search
unfolding hash_search
hash_extract hash key = hash_search (suc (length hash)) hash key

-- A hash as a client lays it out: a line for each key and value.
pub hash_text : List (Bytes × Bytes) → Bytes
hash_text [] = []
hash_text ((k, v) ∷ rest) = k ++ (b' ' ∷ (v ++ (10 ∷ hash_text rest)))
