-- ===== src/Misc/Lines.antt =====
-- misc.c, `read_lines_from_stdin`. The input is the list of what `getline` returns, each line with
-- its newline. `dst` is the string in the caller's array.
mod Examples
use libc_jss.Base.{
  ltb, leb, ◌==◌, if◌then◌else◌, if_true, if_false, ltb→lt, lt→ltb, le_of_not_ltb, leb→le, ==_iff,
  Bool-cases, Option-cases, length, get_or, set, take, drop, replicate, reverse_onto, take_while,
  drop_while, keep_if, length-append, length-set, length-take, length-drop, length-replicate,
  take-append-drop, take_all, take_while-append-drop_while, length-drop_while-le, length-keep_if-le,
  get_or-append, set-append, nil_of_length, length_snoc, get_or-drop, drop_next, get_or_behind,
  take-append_left, take_middle, Bytes, length-append_bytes, length-take_bytes, length-drop_bytes,
  length-replicate_bytes, codes, cstr, strlen, IsText, contains, starts_with, str_eq, cstr_text,
  strlen_text, cstr-IsText, cstr_idem, append-IsText, take-IsText, strncpy, cstr_front,
  get_or-strncpy, lengths, decimal, decimal_injective, length-decimal-le, ℤ, pos, negsuc, ℕ, zero,
  suc, ◌+◌, ◌-◌, ◌*◌, ◌/◌, ◌%◌, ◌^◌, ◌≤◌, ◌<◌, min, ◌≡◌, refl, sym, ap, ap₂, subst, subst₂, ◌∙◌,
  ◌≡⟨◌⟩◌, ◌∎, ◌≢◌, ◌↔◌, ◌⊎◌, inl, inr, Bool, true, false, not, ◌&&◌, ◌||◌, Option, none, some, List,
  [], ◌∷◌, ◌++◌, map, reverse, append-nil, append_assoc, arith,
}
use libc_jss.Misc.Strip.{chomp, is_eol}
use libc_jss.Misc.Strip.Back.{strip_end, chomp_lem}

-- `(size_t) remaining_size`, from `left`, which is `remaining_size + 1`
strncat_limit : ℕ → ℕ
strncat_limit left = if left == 0 then 2 ^ 64 - 1 else left - 1

-- The loop; `remaining_size -= read; if (remaining_size <= 0) break;` compares `left` with
-- `read + 1`.
read_loop : List Bytes → Bytes → ℕ → Bytes
unfolding strncat_limit
read_loop [] dst left = dst
read_loop (line ∷ lines) dst left =
    let dst' = dst ++ take (strncat_limit left) (cstr line) in
    let rest = read_loop lines dst' (left - length line) in
    if leb left (length line + 1) then dst' else rest

pub read_lines_from_stdin : List Bytes → Bytes → ℕ → Option Bytes
unfolding read_loop
read_lines_from_stdin lines dst size = chomp (some (read_loop lines dst size ++ 0 ∷ []))

abbrev pub joined : List Bytes → Bytes
joined [] = []
joined (line ∷ lines) = line ++ joined lines

abbrev pub AllText : List Bytes → Type 0
AllText [] = Unit {0}
AllText (line ∷ lines) = IsText line × AllText lines

take_past : (m n : ℕ) (xs ys : Bytes) → m ≡ length xs + n → take m (xs ++ ys) ≡ xs ++ take n ys
take_past m n [] ys e = let e' : m ≡ n = omega arith in rw e'
take_past zero n (x ∷ xs) ys e = absurd (omega arith)
take_past (suc m) n (x ∷ xs) ys e = ap (◌∷◌ x) (take_past m n xs ys (omega arith))

strncat_limit_lem : (left : ℕ) → 0 < left → strncat_limit left ≡ left - 1
unfolding strncat_limit
strncat_limit_lem left h = ground arith

read_step :
    (line : Bytes) (lines : List Bytes) (dst : Bytes) (left : ℕ)
    → IsText line
    → 0 < left
    → read_loop (line ∷ lines) dst left ≡ (
        if leb left (length line + 1)
        then dst ++ take (left - 1) line
        else read_loop lines (dst ++ take (left - 1) line) (left - length line))
unfolding read_loop
read_step line lines dst left h k = rw (cstr_idem line h, strncat_limit_lem left k)

read_end : (dst : Bytes) (left : ℕ) → read_loop [] dst left ≡ dst
unfolding read_loop
read_end dst left = refl

read_loop_lem :
    (lines : List Bytes) (dst : Bytes) (left : ℕ)
    → AllText lines
    → 0 < left
    → read_loop lines dst left ≡ dst ++ take (left - 1) (joined lines)
read_loop_lem [] dst left h k =
    read_end dst left ∙ sym (rw (take_all {A = ℕ} (left - 1) [] (omega arith)) (append-nil dst))
read_loop_lem (line ∷ lines) dst left h k = elim (Bool-cases (leb left (length line + 1))) [
  | inl e ↦
      rw (read_step line lines dst left h.0 k, e)
        (ap (◌++◌ dst) (sym (take-append_left (left - 1) line (joined lines) (ground arith))))
  | inr e ↦
      let all = take_all (left - 1) line (ground arith) in
      let ih = read_loop_lem lines (dst ++ line) (left - length line) h.1 (ground arith) in
      let past = take_past (left - 1) (left - length line - 1) line (joined lines) (ground arith) in
      rw (read_step line lines dst left h.0 k, e, all)
        (ih ∙ append_assoc dst line _ ∙ ap (◌++◌ dst) (sym past))
]

joined-IsText : (lines : List Bytes) → AllText lines → IsText (joined lines)
joined-IsText [] h = tt
joined-IsText (line ∷ lines) h = append-IsText line (joined lines) h.0 (joined-IsText lines h.1)

-- From an empty string, and with room for one byte at least, the lines are joined, cut so that
-- they fit with their closing 0, and the newlines at the end are cut off.
pub read_lines_from_stdin_lem :
    (lines : List Bytes) (size : ℕ)
    → AllText lines
    → 0 < size
    → let all = take (size - 1) (joined lines) in
      let t = strip_end is_eol all in
      (read_lines_from_stdin lines [] size
        ≡ some (t ++ (replicate (length all - length t) 0 ++ 0 ∷ [])))
      × (length all + 1 ≤ size)
unfolding read_lines_from_stdin
read_lines_from_stdin_lem lines size h k = (
  rw (read_loop_lem lines [] size h k)
      (chomp_lem _ [] (take-IsText (size - 1) (joined lines) (joined-IsText lines h))),
  omega lengths,
)
