-- ===== src/Misc/Split.antt =====
-- misc.c, `split_get_size` and `split`. The pointers of the result are offsets into the buffer,
-- and `malloc` is taken to succeed, as the code does.
pub mod Fields
mod Examples
use libc_jss.Base.{
  ltb, leb, ◌==◌, if◌then◌else◌, ltb→lt, lt→ltb, le_of_not_ltb, leb→le, ==_iff, Bool-cases,
  Option-cases, length, get_or, set, take, drop, replicate, reverse_onto, take_while, drop_while,
  keep_if, length-append, length-set, length-take, length-drop, length-replicate, take-append-drop,
  take_all, take_while-append-drop_while, length-drop_while-le, length-keep_if-le, get_or-append,
  set-append, nil_of_length, length_snoc, get_or-drop, drop_next, get_or_behind, Bytes, codes, cstr,
  strlen, IsText, contains, starts_with, str_eq, cstr_text, strlen_text, cstr-IsText, cstr_idem,
  strncpy, cstr_front, ℕ, zero, suc, ◌+◌, ◌-◌, ◌*◌, ◌/◌, ◌%◌, ◌^◌, ◌≤◌, ◌<◌, min, ◌≡◌, refl, sym,
  ap, ap₂, ◌∙◌, ◌≡⟨◌⟩◌, ◌∎, ◌≢◌, ◌↔◌, ◌⊎◌, inl, inr, Bool, true, false, not, ◌&&◌, ◌||◌, Option,
  none, some, List, [], ◌∷◌, ◌++◌, map, reverse, append-nil, append_assoc, arith,
}

-- `while (buffer[i] != 0)`, with `c` the delimiters counted so far
count_delims : ℕ → Bytes → ℕ → ℕ
count_delims d [] c = c
count_delims d (x ∷ buf) c =
    let rest = count_delims d buf (if x == d then c + 1 else c) in if x == 0 then c else rest

split_get_size : Bytes → ℕ → ℕ
split_get_size buf d = if get_or buf 0 0 == 0 then 0 else count_delims d buf 0 + 1

-- Both loops, from index `i` on. `fresh` holds at the head of the outer loop, where the pointer is
-- stored and one byte is passed without a test; otherwise the inner loop tests the byte.
split_loop : ℕ → Bool → ℕ → Bytes → List ℕ × Bytes
split_loop d fresh i [] = ([], [])
split_loop d fresh i (c ∷ buf) =
    let ends = not fresh && c == d in
    let (res, out) = split_loop d ends (suc i) buf in
    if c == 0
    then ([], c ∷ buf)
    else (if fresh then i ∷ res else res, (if ends then 0 else c) ∷ out)

-- The pointers before the closing `NULL`, the buffer, and the room for pointers.
pub record Pieces : Type 0 where
  pub pointers : List ℕ
  pub buffer : Bytes
  pub room : ℕ

pub split : Bytes → ℕ → Pieces
unfolding split_get_size
split buf d =
    let (res, out) = split_loop d true 0 buf in
    record { pointers = res; buffer = out; room = split_get_size buf d + 1 }

-- The strings that a caller reads through the pointers.
abbrev pub strings : Pieces → List Bytes
strings r = map (λ p. cstr (drop p r.buffer)) r.pointers
