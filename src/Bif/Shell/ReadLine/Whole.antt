-- ===== src/Bif/Shell/ReadLine/Whole.antt =====
-- A line that is short enough is read as it was sent (bif/shell.cc).
use d_barter.Base.{
  ℕ, suc, ◌+◌, ◌<◌, ◌≡◌, refl, ap, ◌∙◌, Bool, true, false, ◌&&◌, ◌==◌, leb, none, some, [], ◌∷◌,
  ◌++◌, append-nil, if◌then◌else◌, length, arith,
}
use d_barter.Base.Bytes.{Bytes}
use d_barter.Bif.Shell.ReadLine.{
  success, error, ends_cr, read_bytes, strip_cr, rev_onto, end_line, shell_read_line,
}

-- No line ends within the bytes that follow those of `acc`.
abbrev pub is_unbroken : Bytes → Bytes → Bool
is_unbroken acc [] = true
is_unbroken acc (c ∷ s) = if c == 10 && ends_cr acc then false else is_unbroken (c ∷ acc) s

rev_onto-rev_onto : (s acc t : Bytes) → rev_onto (rev_onto s acc) t ≡ rev_onto acc (s ++ t)
unfolding rev_onto
rev_onto-rev_onto [] acc t = refl
rev_onto-rev_onto (c ∷ s) acc t = rev_onto-rev_onto s (c ∷ acc) t

unbroken-step : (b : Bool) (x : Bool) → (if b then false else x) ≡ true → (b ≡ false) × (x ≡ true)
unbroken-step true x h = absurd (cc h)
unbroken-step false x h = (refl, h)

module _ (rest : Bytes) where
  read_bytes-line :
      (k : ℕ) (acc s : Bytes)
      → is_unbroken acc s ≡ true
      → k + length s < 65535
      → read_bytes k acc (s ++ (13 ∷ 10 ∷ rest))
        ≡ some (suc (k + length s), (13 ∷ rev_onto s acc, rest))
  unfolding read_bytes rev_onto
  read_bytes-line k acc [] u lt =
      let room : leb 65536 k ≡ false = ground (arith, lt) in
      let room' : leb 65536 (suc k) ≡ false = ground (arith, lt) in
      rw (room, room') (ap (λ x. some (suc x, (13 ∷ acc, rest))) (omega arith))
  read_bytes-line k acc (c ∷ s) u lt =
      let room : leb 65536 k ≡ false = ground (arith, lt) in
      let (inside, more) = unbroken-step (c == 10 && ends_cr acc) (is_unbroken (c ∷ acc) s) u in
      rw (room, inside)
        (read_bytes-line (suc k) (c ∷ acc) s more (omega (arith, lt))
          ∙ ap (λ x. some (suc x, (13 ∷ rev_onto s (c ∷ acc), rest))) (omega arith))

read_bytes-none :
    (k : ℕ) (acc s : Bytes)
    → is_unbroken acc s ≡ true
    → k + length s < 65535
    → read_bytes k acc s ≡ none
unfolding read_bytes
read_bytes-none k acc [] u lt = refl
read_bytes-none k acc (c ∷ s) u lt =
    let room : leb 65536 k ≡ false = ground (arith, lt) in
    let (inside, more) = unbroken-step (c == 10 && ends_cr acc) (is_unbroken (c ∷ acc) s) u in
    rw (room, inside) (read_bytes-none (suc k) (c ∷ acc) s more (omega (arith, lt)))

stripped : (s : Bytes) → rev_onto (strip_cr (13 ∷ rev_onto s [])) [] ≡ s
unfolding rev_onto strip_cr
stripped s = rev_onto-rev_onto s [] [] ∙ append-nil s

-- A line of fewer than 65535 bytes, with no carriage return and newline within, is read as it was
-- sent, up to those two, and what follows them is left; without them it is an error.
pub shell_read_line-line :
    (s rest : Bytes)
    → is_unbroken [] s ≡ true
    → length s < 65535
    → (shell_read_line (s ++ (13 ∷ 10 ∷ rest)) ≡ (success s, rest))
      × (shell_read_line s ≡ (error, []))
unfolding shell_read_line end_line
shell_read_line-line s rest u lt =
    let small : (suc (0 + length s) == 65536) ≡ false = ground (arith, lt) in
    (
      ap end_line (read_bytes-line rest 0 [] s u (omega (arith, lt)))
          ∙ (rw small (ap (λ x. (success x, rest)) (stripped s))),
      ap end_line (read_bytes-none 0 [] s u (omega (arith, lt))),
    )
