-- ===== src/Misc/Cut/Examples.antt =====
-- `strcutpbrk` at concrete buffers.
use libc_jss.Base.{codes, ◌≡◌, refl, some, [], ◌∷◌, ◌++◌}
use libc_jss.Misc.Cut.{strcutpbrk}

-- The example of misc.h.
strcutpbrk_runs :
    strcutpbrk (some (codes "Bandi" ++ 0 ∷ [])) (some (codes "cde" ++ 0 ∷ []))
    ≡ some (codes "Ban" ++ 0 ∷ codes "i" ++ 0 ∷ [])
unfolding strcutpbrk
strcutpbrk_runs = refl
