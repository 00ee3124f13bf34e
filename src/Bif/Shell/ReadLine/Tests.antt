-- ===== src/Bif/Shell/ReadLine/Tests.antt =====
-- Lines at fixed inputs.
use d_barter.Base.{◌≡◌, refl, true, [], ◌∷◌, ◌++◌, arith}
use d_barter.Base.Bytes.{Bytes, codes}
use d_barter.Bif.Shell.ReadLine.{
  success, error, ends_cr, read_bytes, strip_cr, rev_onto, skip_line, end_line, shell_read_line,
}
use d_barter.Bif.Shell.ReadLine.Whole.{is_unbroken, shell_read_line-line}

-- A lone newline does not end a line, and one carriage return is taken off.
abbrev sent : Bytes
sent = codes "a\nb" ++ (13 ∷ 13 ∷ 10 ∷ codes "c")

lone_newline : shell_read_line sent ≡ (success (codes "a\nb" ++ (13 ∷ [])), codes "c")
unfolding shell_read_line end_line read_bytes ends_cr strip_cr rev_onto
lone_newline = refl

-- The rest of a line that is too long goes up to the next line end.
skipped : skip_line 0 (codes "ab" ++ (13 ∷ 10 ∷ codes "c")) ≡ codes "c"
unfolding skip_line
skipped = refl

help_unbroken : is_unbroken [] (codes "help") ≡ true
unfolding ends_cr
help_unbroken = refl

shell_read_line-line_example :
    (shell_read_line (codes "help" ++ (13 ∷ 10 ∷ codes "exit"))
      ≡ (success (codes "help"), codes "exit"))
    × (shell_read_line (codes "help") ≡ (error, []))
shell_read_line-line_example =
    shell_read_line-line (codes "help") (codes "exit") help_unbroken (omega arith)
