-- ===== src/Misc/Delete.antt =====
-- misc.c, `strdelchars`. A `NULL` argument is `none`.
pub mod Filter
mod Examples
use libc_jss.Base.{
  ltb, leb, ◌==◌, if◌then◌else◌, ltb→lt, lt→ltb, le_of_not_ltb, leb→le, ==_iff, Bool-cases,
  Option-cases, length, get_or, set, take, drop, replicate, reverse_onto, take_while, drop_while,
  keep_if, length-append, length-set, length-take, length-drop, length-replicate, take-append-drop,
  take_all, take_while-append-drop_while, length-drop_while-le, length-keep_if-le, get_or-append,
  set-append, nil_of_length, length_snoc, Bytes, codes, cstr, strlen, IsText, contains, starts_with,
  str_eq, cstr_text, strlen_text, cstr-IsText, cstr_idem, strncpy, ℕ, zero, suc, ◌+◌, ◌-◌, ◌*◌, ◌/◌,
  ◌%◌, ◌^◌, ◌≤◌, ◌<◌, min, ◌≡◌, refl, sym, ap, ap₂, ◌∙◌, ◌≡⟨◌⟩◌, ◌∎, ◌≢◌, ◌↔◌, ◌⊎◌, inl, inr, Bool,
  true, false, not, ◌&&◌, ◌||◌, Option, none, some, List, [], ◌∷◌, ◌++◌, map, reverse, append-nil,
  append_assoc, arith,
}

-- `for (j = 0; j < len_dels; j++) if (str[i] == dels[j]) break;`, which returns `j`; `r` is
-- `len_dels - j`.
search_dels : ℕ → ℕ → Bytes → ℕ → ℕ
search_dels zero c dels j = j
search_dels (suc r) c dels j =
    let later = search_dels r c dels (suc j) in if c == get_or dels j 0 then j else later

-- The outer loop, with `r` rounds left; it returns the buffer and `k`.
delete_loop : ℕ → Bytes → Bytes → ℕ → ℕ → Bytes × ℕ
unfolding search_dels
delete_loop zero dels str i k = (str, k)
delete_loop (suc r) dels str i k =
    let c = get_or str i 0 in
    let copied = delete_loop r dels (set str k c) (suc i) (suc k) in
    let skipped = delete_loop r dels str (suc i) k in
    if search_dels (strlen dels) c dels 0 == strlen dels then copied else skipped

pub strdelchars : Option Bytes → Option Bytes → Option Bytes
strdelchars none dels = none
strdelchars (some str) none = some str
strdelchars (some str) (some dels) =
    let (buf, k) = delete_loop (strlen str) dels str 0 0 in
    if strlen str == 0 || strlen dels == 0 then some str else some (set buf k 0)
