-- ===== src/Misc/Fmtsub.antt =====
-- misc.c, `fmtsub`. The pattern is read through the pointer `subpat`, the text from `pospat` on;
-- `buf` is the string in the array of 4096 bytes, which the code terminates at every step; `posbuf`
-- is kept apart from it, as in the code. `int` indices are exact for texts below 2 ^ 31 bytes.
pub mod Expand
pub mod Dest
pub mod Ends
mod Examples
use libc_jss.Base.{
  ltb, leb, ◌==◌, if◌then◌else◌, ltb→lt, lt→ltb, le_of_not_ltb, leb→le, ==_iff, Bool-cases,
  Option-cases, length, get_or, set, take, drop, replicate, reverse_onto, take_while, drop_while,
  keep_if, length-append, length-set, length-take, length-drop, length-replicate, take-append-drop,
  take_all, take_while-append-drop_while, length-drop_while-le, length-keep_if-le, get_or-append,
  set-append, nil_of_length, length_snoc, get_or-drop, drop_next, get_or_behind, take-append_left,
  take_middle, Bytes, codes, cstr, strlen, IsText, contains, starts_with, str_eq, cstr_text,
  strlen_text, cstr-IsText, cstr_idem, strncpy, cstr_front, get_or-strncpy, ℕ, zero, suc, ◌+◌, ◌-◌,
  ◌*◌, ◌/◌, ◌%◌, ◌^◌, ◌≤◌, ◌<◌, min, ◌≡◌, refl, sym, ap, ap₂, ◌∙◌, ◌≡⟨◌⟩◌, ◌∎, ◌≢◌, ◌↔◌, ◌⊎◌, inl,
  inr, Bool, true, false, not, ◌&&◌, ◌||◌, Option, none, some, List, [], ◌∷◌, ◌++◌, map, reverse,
  append-nil, append_assoc, arith,
}

-- A row of the table before its closing 0: a variable, and a value that may be `NULL`.
abbrev pub Args : Type 0
Args = List (Bytes × Option Bytes)

-- `sizeof(buf) - 1`
abbrev pub last_byte : ℕ
last_byte = 4095

-- The loop over the table: the first row with a variable that is not empty and stands at `subpat`.
abbrev pub first_match : Bytes → Args → Option (Bytes × Option Bytes)
first_match subpat [] = none
first_match subpat ((var, exp) ∷ args) =
    if not (length var == 0) && starts_with subpat var
    then some (var, exp)
    else first_match subpat args

pub record Sub : Type 0 where
  pub subpat : Bytes
  pub buf : Bytes
  pub posbuf : ℕ

-- `strncat(buf, exp, sizeof(buf) - posbuf - 1)`, if there is a value
add_value : Option Bytes → Bytes → ℕ → Bytes
add_value none buf posbuf = buf
add_value (some exp) buf posbuf = buf ++ take (last_byte - posbuf) exp

value_length : Option Bytes → ℕ
value_length none = 0
value_length (some exp) = length exp

pub expand : Sub → Bytes → Option Bytes → Sub
expand s var exp =
    let pos = s.posbuf + value_length exp in
    record {
      subpat = drop (length var) s.subpat;
      buf = add_value exp s.buf s.posbuf;
      posbuf = if leb last_byte pos then last_byte else pos;
    }

-- `buf[posbuf] = pattern[pospat]; buf[posbuf+1] = '\0';`
pub copy_byte : Sub → Sub
copy_byte s = record {
  subpat = drop 1 s.subpat;
  buf = take s.posbuf s.buf ++ get_or s.subpat 0 0 ∷ [];
  posbuf = s.posbuf + 1;
}

pub fmtsub_round : Args → Sub → Sub
unfolding expand copy_byte add_value value_length
fmtsub_round args s = elim (first_match s.subpat args) [
  | none ↦ copy_byte s
  | some (var, exp) ↦ expand s var exp
]

-- The main loop; each round takes a byte of the pattern at least, so its length is fuel enough.
pub fmtsub_loop : ℕ → Args → Sub → Sub
unfolding fmtsub_round
fmtsub_loop zero args s = s
fmtsub_loop (suc fuel) args s =
    let rest = fmtsub_loop fuel args (fmtsub_round args s) in
    if ltb 0 (length s.subpat) && ltb s.posbuf last_byte then rest else s

abbrev pub start : Bytes → Sub
start pattern = record { subpat = pattern; buf = []; posbuf = 0 }

-- `dest` is the caller's array. `none` is the return value -1, with nothing written, and `some`
-- is the return value 0, with the array as it is then.
pub fmtsub : Option Bytes → ℕ → Option Bytes → Option Args → Option Bytes
unfolding fmtsub_loop
fmtsub (some dest) size (some pattern) (some args) =
    let s = fmtsub_loop (length pattern) args (start pattern) in
    if size == 0
    then none
    else if length pattern == 0
    then some (set dest 0 0)
    else some (strncpy dest (take s.posbuf s.buf) (size - 1))
fmtsub _ size _ _ = none
