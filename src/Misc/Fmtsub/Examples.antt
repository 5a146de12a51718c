-- ===== src/Misc/Fmtsub/Examples.antt =====
-- `fmtsub` at a concrete table.
use libc_jss.Base.{
  false, ◌+◌, get_or, replicate, Bytes, codes, ◌≡◌, refl, none, some, [], ◌∷◌, ◌++◌, arith,
}
use libc_jss.Misc.Fmtsub.{Args, fmtsub, fmtsub_loop, start}
use libc_jss.Misc.Fmtsub.Ends.{goes_on, fmtsub_loop_ends}
use libc_jss.Misc.Fmtsub.Expand.{Expands, done, variable, byte}
use libc_jss.Misc.Fmtsub.Dest.{fmtsub_lem}

abbrev table : Args
table = (codes "%n", some (codes "25")) ∷ ([], some (codes "no")) ∷ (codes "%0", none) ∷ []

abbrev room : Bytes
room = replicate 6 b'x'

fmtsub_runs :
    fmtsub (some room) 6 (some (codes "a%n%0")) (some table)
    ≡ some (codes "a25" ++ 0 ∷ 0 ∷ b'x' ∷ [])
unfolding fmtsub
fmtsub_runs = refl

-- With no place for the closing 0, the array holds no end.
fmtsub_no_end : fmtsub (some room) 6 (some (codes "%n-%n")) (some table) ≡ some (codes "25-25x")
unfolding fmtsub
fmtsub_no_end = refl

Expands-table : Expands table (codes "a%n%0") (codes "a25")
Expands-table = byte refl (variable refl (variable refl done))

fmtsub_lem_example :
    let after = codes "a25" ++ 0 ∷ 0 ∷ b'x' ∷ [] in
    (fmtsub (some room) 6 (some (codes "a%n%0")) (some table) ≡ some after)
    × (get_or after 5 0 ≡ b'x')
fmtsub_lem_example =
    fmtsub_lem room 6 (codes "a%n%0") table (codes "a25") (omega arith) (omega arith) Expands-table

fmtsub_loop_ends_example :
    (goes_on (fmtsub_loop 5 table (start (codes "a%n%0"))) ≡ false)
    × (fmtsub_loop (5 + 7) table (start (codes "a%n%0"))
        ≡ fmtsub_loop 5 table (start (codes "a%n%0")))
fmtsub_loop_ends_example = fmtsub_loop_ends table 5 7 (start (codes "a%n%0")) (omega arith)
