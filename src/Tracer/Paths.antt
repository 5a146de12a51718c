-- ===== src/Tracer/Paths.antt =====
-- tracer/tracer.c: different numbers name different trace files.
use libc_jss.Base.{
  length, drop, take_all, Bytes, lengths, decimal, decimal_injective, length-decimal-le, ℕ, ◌+◌,
  ◌^◌, ◌≤◌, ◌<◌, ◌≡◌, sym, ap, ◌∙◌, ◌≢◌, [], ◌∷◌, ◌++◌,
}
use libc_jss.Tracer.{path_of}

append_cancel : (s a b : Bytes) → s ++ a ≡ s ++ b → a ≡ b
append_cancel [] a b e = e
append_cancel (c ∷ s) a b e = append_cancel s a b (cc)

path_of_injective :
    (path : Bytes) (m n : ℕ)
    → length path + 21 ≤ 4095
    → m < 2 ^ 64
    → n < 2 ^ 64
    → path_of path m ≡ path_of path n
    → m ≡ n
path_of_injective path m n h k l e = decimal_injective m n k l (ap (drop 1) tails)
  where
    whole : (n : ℕ) → path_of path n ≡ path ++ b'/' ∷ decimal n
    whole n = take_all 4095 (path ++ b'/' ∷ decimal n) (omega (lengths, length-decimal-le n))

    tails : b'/' ∷ decimal m ≡ b'/' ∷ decimal n
    tails = append_cancel path (b'/' ∷ decimal m) (b'/' ∷ decimal n) (sym (whole m) ∙ e ∙ whole n)

-- Two different 64-bit numbers name two different files, if the directory's path leaves room for
-- 21 bytes in the array.
pub path_of_distinct :
    (path : Bytes) (m n : ℕ)
    → length path + 21 ≤ 4095
    → m < 2 ^ 64
    → n < 2 ^ 64
    → m ≢ n
    → path_of path m ≢ path_of path n
path_of_distinct path m n h k l d e = d (path_of_injective path m n h k l e)
