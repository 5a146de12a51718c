-- ===== src/Misc/Split/Examples.antt =====
-- `split` at concrete buffers.
use libc_jss.Base.{length, codes, ◌+◌, ◌≤◌, ◌≡◌, refl, [], ◌∷◌, ◌++◌, arith}
use libc_jss.Misc.Split.{count_delims, split, split_loop, strings}
use libc_jss.Misc.Split.Fields.{split_lem, AllFields, Rejoins, terminated}

split_runs : strings (split (codes "ab;c;" ++ 0 ∷ []) b';') ≡ codes "ab" ∷ codes "c" ∷ []
unfolding split split_loop count_delims
split_runs = refl

-- A delimiter at the start of a field belongs to the field.
split_empty_field : strings (split (codes "a;;b" ++ 0 ∷ []) b';') ≡ codes "a" ∷ codes ";b" ∷ []
unfolding split split_loop count_delims
split_empty_field = refl

split_lem_example :
    let r = split (codes "ab;c;" ++ 0 ∷ []) b';' in
    AllFields b';' (strings r)
    × Rejoins b';' (terminated b';' (strings r)) (codes "ab;c;")
    × (length r.pointers + 1 ≤ r.room)
split_lem_example = split_lem (codes "ab;c;") [] b';' (omega arith)
