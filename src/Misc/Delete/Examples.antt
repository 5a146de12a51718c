-- ===== src/Misc/Delete/Examples.antt =====
-- `strdelchars` at concrete buffers.
use libc_jss.Base.{length, Bytes, codes, ◌+◌, ◌≡◌, refl, some, [], ◌∷◌, ◌++◌, arith}
use libc_jss.Misc.Delete.{strdelchars, delete_loop}
use libc_jss.Misc.Delete.Filter.{strdelchars_lem}

strdelchars_runs :
    strdelchars (some (codes "a-b-c" ++ 0 ∷ 7 ∷ [])) (some (codes "-x" ++ 0 ∷ []))
    ≡ some (codes "abc" ++ 0 ∷ codes "c" ++ 0 ∷ 7 ∷ [])
unfolding strdelchars delete_loop
strdelchars_runs = refl

strdelchars_lem_example :
    (junk : Bytes) × (length junk + 3 ≡ 5)
    × (strdelchars (some (codes "a-b-c" ++ 0 ∷ 7 ∷ [])) (some (codes "-x" ++ 0 ∷ []))
        ≡ some (codes "abc" ++ 0 ∷ (junk ++ 7 ∷ [])))
strdelchars_lem_example =
    strdelchars_lem (codes "a-b-c") (7 ∷ []) (codes "-x" ++ 0 ∷ []) (omega arith)
