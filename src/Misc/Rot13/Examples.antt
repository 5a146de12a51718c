-- ===== src/Misc/Rot13/Examples.antt =====
-- `encode_rot13` at concrete buffers.
use libc_jss.Base.{codes, ◌≡◌, refl, some, ◌∷◌, ◌++◌, arith}
use libc_jss.Misc.Rot13.{encode_rot13, encode_rot13_lem}

encode_rot13_runs :
    encode_rot13 (some (codes "Why, 2?" ++ 0 ∷ codes "Why"))
    ≡ some (codes "Jul, 2?" ++ 0 ∷ codes "Why")
unfolding encode_rot13
encode_rot13_runs = refl

encode_rot13_lem_example :
    (encode_rot13 (some (codes "Why, 2?" ++ 0 ∷ codes "Why"))
      ≡ some (codes "Jul, 2?" ++ 0 ∷ codes "Why"))
    × (encode_rot13 (encode_rot13 (some (codes "Why, 2?" ++ 0 ∷ codes "Why")))
        ≡ some (codes "Why, 2?" ++ 0 ∷ codes "Why"))
encode_rot13_lem_example = encode_rot13_lem (codes "Why, 2?") (codes "Why") (omega arith)
