-- ===== src/Misc/Strip/Examples.antt =====
-- `chomp` and `_trim` at concrete buffers.
use libc_jss.Base.{codes, ◌≡◌, refl, true, some, [], ◌∷◌, ◌++◌, arith}
use libc_jss.Misc.Strip.{
  chomp, trim, clear_back, trim_left, trim_right, first_kept, shift_left, fill_zero,
}
use libc_jss.Misc.Strip.Front.{trim_lem}

chomp_runs : chomp (some (codes "ab\n\r" ++ 0 ∷ 7 ∷ [])) ≡ some (codes "ab" ++ 0 ∷ 0 ∷ 0 ∷ 7 ∷ [])
unfolding chomp clear_back
chomp_runs = refl

trim_runs :
    trim (some (codes " \tab c " ++ 0 ∷ 7 ∷ [])) true true
    ≡ some (codes "ab c" ++ 0 ∷ 0 ∷ 0 ∷ 0 ∷ 7 ∷ [])
unfolding trim clear_back trim_left trim_right first_kept shift_left fill_zero
trim_runs = refl

trim_lem_example :
    trim (some (codes " ab\t" ++ 0 ∷ 7 ∷ [])) true true ≡ some (codes "ab" ++ 0 ∷ 0 ∷ 0 ∷ 7 ∷ [])
trim_lem_example = trim_lem (codes " ab\t") (7 ∷ []) true true (omega arith)
