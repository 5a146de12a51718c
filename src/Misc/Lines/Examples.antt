-- ===== src/Misc/Lines/Examples.antt =====
-- `read_lines_from_stdin` at a concrete input.
use libc_jss.Base.{Bytes, codes, ◌≤◌, ◌≡◌, some, List, [], ◌∷◌, ◌++◌, arith}
use libc_jss.Misc.Lines.{read_lines_from_stdin, read_lines_from_stdin_lem}

abbrev two_lines : List Bytes
two_lines = codes "one\n" ∷ codes "two\n" ∷ []

read_lines_from_stdin_lem_example :
    (read_lines_from_stdin two_lines [] 7 ≡ some (codes "one\ntw" ++ 0 ∷ [])) × (7 ≤ 7)
read_lines_from_stdin_lem_example =
    read_lines_from_stdin_lem two_lines 7 (omega arith) (omega arith)
