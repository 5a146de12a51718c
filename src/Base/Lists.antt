-- ===== src/Base/Lists.antt =====
-- Lists measured and indexed by the native numbers, under the library's names.
use Prim.Native.Nat.{ℕ, zero, suc, ◌+◌, ◌-◌, ◌≤◌, min}
use mathlib.Core.Path.{◌≡◌, refl, ap}
use mathlib.Core.Bool.{Bool}
use mathlib.Core.List.{List, [], ◌∷◌, ◌++◌, append_assoc}
use native.Mathlib.Omega.{arith}
use libc_jss.Base.Tests.{if◌then◌else◌}

module _ {ℓ} {A : Type ℓ} where
  abbrev pub length : List A → ℕ
  length [] = 0
  length (x ∷ xs) = suc (length xs)

  abbrev pub get_or : List A → ℕ → A → A
  get_or [] i d = d
  get_or (x ∷ xs) zero d = x
  get_or (x ∷ xs) (suc i) d = get_or xs i d

  -- A write out of bounds changes nothing.
  abbrev pub set : List A → ℕ → A → List A
  set [] i v = []
  set (x ∷ xs) zero v = v ∷ xs
  set (x ∷ xs) (suc i) v = x ∷ set xs i v

  abbrev pub take : ℕ → List A → List A
  take zero xs = []
  take (suc n) [] = []
  take (suc n) (x ∷ xs) = x ∷ take n xs

  abbrev pub drop : ℕ → List A → List A
  drop zero xs = xs
  drop (suc n) [] = []
  drop (suc n) (x ∷ xs) = drop n xs

  abbrev pub replicate : ℕ → A → List A
  replicate zero a = []
  replicate (suc n) a = a ∷ replicate n a

  -- The list turned round in front of another.
  abbrev pub reverse_onto : List A → List A → List A
  reverse_onto [] ys = ys
  reverse_onto (x ∷ xs) ys = reverse_onto xs (x ∷ ys)

  -- The longest prefix whose members all pass the test, and what follows it.
  abbrev pub take_while : (A → Bool) → List A → List A
  take_while p [] = []
  take_while p (x ∷ xs) = if p x then x ∷ take_while p xs else []

  abbrev pub drop_while : (A → Bool) → List A → List A
  drop_while p [] = []
  drop_while p (x ∷ xs) = if p x then drop_while p xs else x ∷ xs

  abbrev pub keep_if : (A → Bool) → List A → List A
  keep_if p [] = []
  keep_if p (x ∷ xs) = if p x then x ∷ keep_if p xs else keep_if p xs

module _ {ℓ} {A : Type ℓ} where
  pub length-append : (xs ys : List A) → length (xs ++ ys) ≡ length xs + length ys
  length-append [] ys = omega arith
  length-append (x ∷ xs) ys = omega (arith, length-append xs ys)

  pub length-set : (xs : List A) (i : ℕ) (v : A) → length (set xs i v) ≡ length xs
  length-set [] i v = refl
  length-set (x ∷ xs) zero v = refl
  length-set (x ∷ xs) (suc i) v = ap suc (length-set xs i v)

  pub length-take : (n : ℕ) (xs : List A) → length (take n xs) ≡ min n (length xs)
  length-take zero xs = omega arith
  length-take (suc n) [] = omega arith
  length-take (suc n) (x ∷ xs) = omega (arith, length-take n xs)

  pub length-drop : (n : ℕ) (xs : List A) → length (drop n xs) ≡ length xs - n
  length-drop zero xs = omega arith
  length-drop (suc n) [] = omega arith
  length-drop (suc n) (x ∷ xs) = omega (arith, length-drop n xs)

  pub length-replicate : (n : ℕ) (a : A) → length (replicate n a) ≡ n
  length-replicate zero a = refl
  length-replicate (suc n) a = ap suc (length-replicate n a)

  pub take-append-drop : (n : ℕ) (xs : List A) → take n xs ++ drop n xs ≡ xs
  take-append-drop zero xs = refl
  take-append-drop (suc n) [] = refl
  take-append-drop (suc n) (x ∷ xs) = ap (◌∷◌ x) (take-append-drop n xs)

  pub take_all : (n : ℕ) (xs : List A) → length xs ≤ n → take n xs ≡ xs
  take_all zero [] h = refl
  take_all zero (x ∷ xs) h = absurd (omega arith)
  take_all (suc n) [] h = refl
  take_all (suc n) (x ∷ xs) h = ap (◌∷◌ x) (take_all n xs (omega arith))

  pub take_while-append-drop_while :
      (p : A → Bool) (xs : List A) → take_while p xs ++ drop_while p xs ≡ xs
  take_while-append-drop_while p [] = refl
  take_while-append-drop_while p (x ∷ xs) = ground (arith, take_while-append-drop_while p xs)

  pub length-drop_while-le : (p : A → Bool) (xs : List A) → length (drop_while p xs) ≤ length xs
  length-drop_while-le p [] = omega arith
  length-drop_while-le p (x ∷ xs) = ground (arith, length-drop_while-le p xs)

  pub length-keep_if-le : (p : A → Bool) (xs : List A) → length (keep_if p xs) ≤ length xs
  length-keep_if-le p [] = omega arith
  length-keep_if-le p (x ∷ xs) = ground (arith, length-keep_if-le p xs)

  -- Reading and writing where two lists meet.
  pub get_or-append : (xs ys : List A) (d : A) → get_or (xs ++ ys) (length xs) d ≡ get_or ys 0 d
  get_or-append [] [] d = refl
  get_or-append [] (y ∷ ys) d = refl
  get_or-append (x ∷ xs) ys d = get_or-append xs ys d

  pub set-append :
      (xs : List A) (y : A) (ys : List A) (v : A) → set (xs ++ y ∷ ys) (length xs) v ≡ xs ++ v ∷ ys
  set-append [] y ys v = refl
  set-append (x ∷ xs) y ys v = ap (◌∷◌ x) (set-append xs y ys v)

  pub nil_of_length : (xs : List A) → length xs ≡ 0 → xs ≡ []
  nil_of_length [] h = refl
  nil_of_length (x ∷ xs) h = absurd (omega arith)

  pub length_snoc : (xs : List A) (x : A) → length (xs ++ x ∷ []) ≡ suc (length xs)
  length_snoc xs x = omega (arith, length-append xs (x ∷ []))

  pub get_or-drop : (n : ℕ) (xs : List A) (d : A) → get_or xs n d ≡ get_or (drop n xs) 0 d
  get_or-drop zero xs d = refl
  get_or-drop (suc n) [] d = refl
  get_or-drop (suc n) (x ∷ xs) d = get_or-drop n xs d

  pub drop_next :
      (n : ℕ) (xs : List A) {x : A} {ys : List A} → drop n xs ≡ x ∷ ys → drop (suc n) xs ≡ ys
  drop_next zero [] e = cc
  drop_next zero (x ∷ xs) e = cc
  drop_next (suc n) [] e = cc
  drop_next (suc n) (x ∷ xs) e = drop_next n xs e

  -- Reading behind two lists.
  pub get_or_behind :
      (xs ys : List A) (z : A) (zs : List A) (i : ℕ) (d : A)
      → i ≡ length xs + length ys
      → get_or (xs ++ (ys ++ z ∷ zs)) i d ≡ z
  get_or_behind xs ys z zs i d e =
      let index : i ≡ length (xs ++ ys) = omega (arith, length-append xs ys) in
      rw (← append_assoc xs ys (z ∷ zs), index) (get_or-append (xs ++ ys) (z ∷ zs) d)

  pub take-append_left : (n : ℕ) (xs ys : List A) → n ≤ length xs → take n (xs ++ ys) ≡ take n xs
  take-append_left zero xs ys h = refl
  take-append_left (suc n) [] ys h = absurd (omega arith)
  take-append_left (suc n) (x ∷ xs) ys h = ap (◌∷◌ x) (take-append_left n xs ys (omega arith))

  take-take_append : (n : ℕ) (ys zs : List A) → take n (take n ys ++ zs) ≡ take n (ys ++ zs)
  take-take_append zero ys zs = refl
  take-take_append (suc n) [] zs = refl
  take-take_append (suc n) (y ∷ ys) zs = ap (◌∷◌ y) (take-take_append n ys zs)

  -- Cutting a middle part at the place where the whole is cut anyway.
  pub take_middle :
      (n : ℕ) (xs ys zs : List A)
      → length xs ≤ n
      → take n ((xs ++ take (n - length xs) ys) ++ zs) ≡ take n (xs ++ (ys ++ zs))
  take_middle n [] ys zs h = let e : n - 0 ≡ n = omega arith in rw e (take-take_append n ys zs)
  take_middle zero (x ∷ xs) ys zs h = refl
  take_middle (suc n) (x ∷ xs) ys zs h =
      let e : suc n - suc (length xs) ≡ n - length xs = omega arith in
      rw e (ap (◌∷◌ x) (take_middle n xs ys zs (omega arith)))
