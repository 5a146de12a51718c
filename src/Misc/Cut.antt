-- ===== src/Misc/Cut.antt =====
-- misc.c, `strcutpbrk`. A `NULL` argument is `none`.
mod Examples
use mathlib.Core.Option
use libc_jss.Base.{
  ltb, leb, ◌==◌, if◌then◌else◌, ltb→lt, lt→ltb, le_of_not_ltb, leb→le, ==_iff, Bool-cases,
  Option-cases, length, get_or, set, take, drop, replicate, reverse_onto, take_while, drop_while,
  keep_if, length-append, length-set, length-take, length-drop, length-replicate, take-append-drop,
  take_all, take_while-append-drop_while, length-drop_while-le, length-keep_if-le, get_or-append,
  set-append, nil_of_length, length_snoc, Bytes, codes, cstr, strlen, IsText, contains, starts_with,
  str_eq, cstr_text, strlen_text, cstr-IsText, cstr_idem, strncpy, ℕ, zero, suc, ◌+◌, ◌-◌, ◌*◌, ◌/◌,
  ◌%◌, ◌^◌, ◌≤◌, ◌<◌, min, ◌≡◌, refl, sym, ap, ap₂, ◌∙◌, ◌≡⟨◌⟩◌, ◌∎, ◌≢◌, ◌↔◌, ◌⊎◌, inl, inr, Bool,
  true, false, not, ◌&&◌, ◌||◌, Option, none, some, List, [], ◌∷◌, ◌++◌, map, reverse, append-nil,
  append_assoc, arith,
}

-- The standard function: the index of the first byte of the string that stands in `accept`.
abbrev strpbrk : Bytes → Bytes → Option ℕ
strpbrk [] accept = none
strpbrk (c ∷ s) accept =
    if c == 0
    then none
    else if contains (cstr accept) c
    then some 0
    else Option.map suc (strpbrk s accept)

pub strcutpbrk : Option Bytes → Option Bytes → Option Bytes
strcutpbrk none accept = none
strcutpbrk (some str) none = some str
strcutpbrk (some str) (some accept) = elim (strpbrk str accept) [
  | none ↦ some str
  | some i ↦ some (set str i 0)
]

-- The longest prefix with no byte of `accept`.
abbrev pub before : Bytes → Bytes → Bytes
before accept s = take_while (λ c. not (contains (cstr accept) c)) s

abbrev cut : Option ℕ → Bytes → Bytes
cut none buf = buf
cut (some i) buf = set buf i 0

cut_lem :
    (s rest accept : Bytes)
    → IsText s
    → cut (strpbrk (s ++ 0 ∷ rest) accept) (s ++ 0 ∷ rest)
      ≡ before accept s ++ 0 ∷ drop (suc (length (before accept s))) (s ++ 0 ∷ rest)
cut_lem [] rest accept h = refl
cut_lem (c ∷ s) rest accept h = ground (arith, cut_lem s rest accept h.1)

-- The string is cut at its first byte from `accept`, by one 0 in that place; with no such byte,
-- and in the rest of the buffer, nothing changes.
pub strcutpbrk_lem :
    (s rest accept : Bytes)
    → IsText s
    → strcutpbrk (some (s ++ 0 ∷ rest)) (some accept)
      ≡ some (before accept s ++ 0 ∷ drop (suc (length (before accept s))) (s ++ 0 ∷ rest))
unfolding strcutpbrk
strcutpbrk_lem s rest accept h = ground (arith, cut_lem s rest accept h)
