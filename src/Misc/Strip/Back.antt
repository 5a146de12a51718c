-- ===== src/Misc/Strip/Back.antt =====
-- The loop from the end of the string, and `chomp`.
use libc_jss.Base.{
  Bool-cases, length, get_or, set, replicate, reverse_onto, drop_while, length-drop_while-le,
  get_or-append, set-append, Bytes, IsText, strlen_text, ℕ, zero, suc, ◌+◌, ◌-◌, ◌≤◌, ◌≡◌, refl,
  sym, ap, ◌∙◌, inl, inr, Bool, some, [], ◌∷◌, ◌++◌, arith,
}
use libc_jss.Misc.Strip.{is_eol, clear_back, chomp}

-- The string without its longest end whose bytes all pass the test.
abbrev pub strip_end : (ℕ → Bool) → Bytes → Bytes
strip_end p s = reverse_onto (drop_while p (reverse_onto s [])) []

reverse_onto-length : (ys zs : Bytes) → length (reverse_onto ys zs) ≡ length ys + length zs
reverse_onto-length [] zs = omega arith
reverse_onto-length (y ∷ ys) zs = omega (arith, reverse_onto-length ys (y ∷ zs))

reverse_onto-append : (ys zs ws : Bytes) → reverse_onto ys (zs ++ ws) ≡ reverse_onto ys zs ++ ws
reverse_onto-append [] zs ws = refl
reverse_onto-append (y ∷ ys) zs ws = reverse_onto-append ys (y ∷ zs) ws

reverse_onto-reverse_onto :
    (ys zs ws : Bytes) → reverse_onto (reverse_onto ys zs) ws ≡ reverse_onto zs (ys ++ ws)
reverse_onto-reverse_onto [] zs ws = refl
reverse_onto-reverse_onto (y ∷ ys) zs ws = reverse_onto-reverse_onto ys (y ∷ zs) ws

reverse_onto_twice : (s ws : Bytes) → reverse_onto (reverse_onto s []) ws ≡ s ++ ws
reverse_onto_twice s ws = reverse_onto-reverse_onto s [] ws

module _ (ys zs : Bytes) (c : ℕ) where
  last_in_place : reverse_onto ys (c ∷ zs) ≡ reverse_onto ys [] ++ c ∷ zs
  last_in_place = reverse_onto-append ys [] (c ∷ zs)

  last_position : length ys ≡ length (reverse_onto ys [])
  last_position = omega (arith, reverse_onto-length ys [])

  get_or_last : get_or (reverse_onto ys (c ∷ zs)) (length ys) 0 ≡ c
  get_or_last = rw (last_in_place, last_position) (get_or-append (reverse_onto ys []) (c ∷ zs) 0)

  set_last : (v : ℕ) → set (reverse_onto ys (c ∷ zs)) (length ys) v ≡ reverse_onto ys (v ∷ zs)
  set_last v =
      rw (last_in_place, last_position)
        (set-append (reverse_onto ys []) c zs v ∙ sym (reverse_onto-append ys [] (v ∷ zs)))

zeros_more : (k : ℕ) (zs : Bytes) → replicate k 0 ++ 0 ∷ zs ≡ replicate (suc k) 0 ++ zs
zeros_more zero zs = refl
zeros_more (suc k) zs = ap (◌∷◌ 0) (zeros_more k zs)

zeros_before :
    (m n : ℕ) (zs : Bytes) → n ≤ m → replicate (m - n) 0 ++ 0 ∷ zs ≡ replicate (suc m - n) 0 ++ zs
zeros_before m n zs h =
    let e : suc m - n ≡ suc (m - n) = omega arith in rw e (zeros_more (m - n) zs)

-- The loop clears exactly the end whose bytes pass the test, and stops there.
clear_back_lem :
    (p : ℕ → Bool) (ys zs : Bytes)
    → clear_back p (length ys) (reverse_onto ys zs) ≡ (
      reverse_onto (drop_while p ys) (replicate (length ys - length (drop_while p ys)) 0 ++ zs),
      length (drop_while p ys),
    )
unfolding clear_back
clear_back_lem p [] zs = refl
clear_back_lem p (y ∷ ys) zs = elim (Bool-cases (p y)) [
  | inl e ↦
      rw (get_or_last ys zs y, set_last ys zs y 0, e)
        (clear_back_lem p ys (0 ∷ zs)
          ∙ rw (zeros_before (length ys) (length (drop_while p ys)) zs (length-drop_while-le p ys)))
  | inr e ↦
      rw (get_or_last ys zs y, e)
        (let z : suc (length ys) - suc (length ys) ≡ 0 = omega arith in rw z)
]

-- On a string `s` in front of `zs`.
pub clear_back-strip_end :
    (p : ℕ → Bool) (s zs : Bytes)
    → clear_back p (length s) (s ++ zs) ≡ (
      strip_end p s ++ (replicate (length s - length (strip_end p s)) 0 ++ zs),
      length (strip_end p s),
    )
clear_back-strip_end p s zs =
    let ys = reverse_onto s [] in
    let n : length ys ≡ length s = omega (arith, reverse_onto-length s []) in
    let k : length (strip_end p s) ≡ length (drop_while p ys) =
      omega (arith, reverse_onto-length (drop_while p ys) []) in
    let zeros = replicate (length ys - length (drop_while p ys)) 0 ++ zs in
    rw (← n, ← reverse_onto_twice s zs)
      (clear_back_lem p ys zs ∙ rw (k, reverse_onto-append (drop_while p ys) [] zeros))

-- `chomp` cuts the longest end made of newlines and carriage returns off the string: those bytes
-- become 0, and no other byte of the buffer changes.
pub chomp_lem :
    (s rest : Bytes)
    → IsText s
    → chomp (some (s ++ 0 ∷ rest))
      ≡ some
          (strip_end is_eol s ++ (replicate (length s - length (strip_end is_eol s)) 0 ++ 0 ∷ rest))
unfolding chomp
chomp_lem s rest h = rw (strlen_text s rest h) (rw (clear_back-strip_end is_eol s (0 ∷ rest)))

pub length-strip_end-le : (p : ℕ → Bool) (s : Bytes) → length (strip_end p s) ≤ length s
length-strip_end-le p s = omega (
  arith,
  reverse_onto-length s [],
  reverse_onto-length (drop_while p (reverse_onto s [])) [],
  length-drop_while-le p (reverse_onto s []),
)
