-- ===== src/Base/Strings.antt =====
-- C strings: a buffer is a list of bytes, and the string in it ends before the first 0.
use Prim.Native.Nat.{ℕ, zero, suc, ◌+◌, ◌-◌, min}
use mathlib.Core.Path.{◌≡◌, refl, ap, sym, ◌∙◌}
use mathlib.Core.Logic.{◌≢◌}
use mathlib.Core.Bool.{Bool, true, false, ◌&&◌, ◌||◌}
use mathlib.Core.List.{List, [], ◌∷◌, ◌++◌}
use native.Mathlib.Omega.{arith}
use Prim.Native.Char.{code}
use Prim.Native.String.{String}
use mathlib.Core.Logic.{inl, inr}
use libc_jss.Base.Tests.{Bool-cases, if◌then◌else◌, ◌==◌}
use libc_jss.Base.Lists.{
  get_or, length-take, length-append, length-drop, length-replicate, get_or-append, get_or-drop,
  length, take, drop, replicate,
}

abbrev pub Bytes : Type 0
Bytes = List ℕ

-- The lengths of byte strings, as a set for `omega`.
pub length-append_bytes : (s t : Bytes) → length (s ++ t) ≡ length s + length t
length-append_bytes s t = length-append s t

pub length-take_bytes : (n : ℕ) (s : Bytes) → length (take n s) ≡ min n (length s)
length-take_bytes n s = length-take n s

pub length-drop_bytes : (n : ℕ) (s : Bytes) → length (drop n s) ≡ length s - n
length-drop_bytes n s = length-drop n s

pub length-replicate_bytes : (n c : ℕ) → length (replicate n c) ≡ n
length-replicate_bytes n c = length-replicate n c

pub ruleset lengths =
    (arith, length-append_bytes, length-take_bytes, length-drop_bytes, length-replicate_bytes)

-- The code points of a text: its bytes, if it is ASCII.
abbrev pub codes : String → Bytes
codes String.[] = []
codes (String.◌∷◌ c s) = code c ∷ codes s

-- What the C string functions read of a buffer.
abbrev pub cstr : Bytes → Bytes
cstr [] = []
cstr (c ∷ cs) = if c == 0 then [] else c ∷ cstr cs

abbrev pub strlen : Bytes → ℕ
strlen buf = length (cstr buf)

-- No byte of a string is 0.
abbrev pub IsText : Bytes → Type 0
IsText [] = Unit {0}
IsText (c ∷ cs) = (c ≢ 0) × IsText cs

-- `strchr (set, c) != NULL` for a byte other than 0.
abbrev pub contains : Bytes → ℕ → Bool
contains [] c = false
contains (x ∷ xs) c = x == c || contains xs c

-- `!strncmp (s, t, strlen (t))`
abbrev pub starts_with : Bytes → Bytes → Bool
starts_with s [] = true
starts_with [] (y ∷ t) = false
starts_with (x ∷ s) (y ∷ t) = x == y && starts_with s t

-- `!strcmp (s, t)`
abbrev pub str_eq : Bytes → Bytes → Bool
str_eq [] [] = true
str_eq (x ∷ s) (y ∷ t) = x == y && str_eq s t
str_eq _ _ = false

pub cstr_text : (s rest : Bytes) → IsText s → cstr (s ++ 0 ∷ rest) ≡ s
cstr_text [] rest h = refl
cstr_text (c ∷ s) rest h = ground (arith, cstr_text s rest h.1)

pub strlen_text : (s rest : Bytes) → IsText s → strlen (s ++ 0 ∷ rest) ≡ length s
strlen_text s rest h = ap length (cstr_text s rest h)

pub cstr-IsText : (buf : Bytes) → IsText (cstr buf)
cstr-IsText [] = tt
cstr-IsText (c ∷ buf) = ground (arith, cstr-IsText buf)

pub cstr_idem : (s : Bytes) → IsText s → cstr s ≡ s
cstr_idem [] h = refl
cstr_idem (c ∷ s) h = ground (arith, cstr_idem s h.1)

pub append-IsText : (s t : Bytes) → IsText s → IsText t → IsText (s ++ t)
append-IsText [] t h k = k
append-IsText (c ∷ s) t h k = (h.0, append-IsText s t h.1 k)

pub take-IsText : (n : ℕ) (s : Bytes) → IsText s → IsText (take n s)
take-IsText zero s h = tt
take-IsText (suc n) [] h = tt
take-IsText (suc n) (c ∷ s) h = (h.0, take-IsText n s h.1)

-- `strncpy (dest, src, n)`: `n` bytes of `src`, filled up with 0, over the front of `dest`.
abbrev pub strncpy : Bytes → Bytes → ℕ → Bytes
strncpy dest src n = take n (src ++ replicate (n - length src) 0) ++ drop n dest

-- A buffer is its string and what stands behind that.
pub cstr_front : (buf : Bytes) → (rest : Bytes) × (buf ≡ cstr buf ++ rest)
cstr_front [] = ([], refl)
cstr_front (c ∷ buf) = elim (Bool-cases (c == 0)) [
  | inl e ↦ (c ∷ buf, rw e)
  | inr e ↦ let (rest, split) = cstr_front buf in (rest, rw e (ap (◌∷◌ c) split))
]

-- `strncpy (dest, src, n)` writes `n` bytes and no more.
pub get_or-strncpy : (dest src : Bytes) (n : ℕ) → get_or (strncpy dest src n) n 0 ≡ get_or dest n 0
get_or-strncpy dest src n =
    let front = take n (src ++ replicate (n - length src) 0) in
    let long : n ≡ length front = omega lengths in
    ap (λ (i : ℕ). get_or (front ++ drop n dest) i 0) long
    ∙ get_or-append front (drop n dest) 0
    ∙ sym (get_or-drop n dest 0)
