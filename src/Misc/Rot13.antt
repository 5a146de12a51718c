-- ===== src/Misc/Rot13.antt =====
-- misc.c, `encode_rot13`: the string in the buffer is rewritten in place, byte by byte.
mod Examples
use libc_jss.Base.{
  ltb, leb, ◌==◌, if◌then◌else◌, if_true, if_false, ltb→lt, lt→ltb, le_of_not_ltb, leb→le, ==_iff,
  Bool-cases, Option-cases, length, get_or, set, take, drop, replicate, reverse_onto, take_while,
  drop_while, keep_if, length-append, length-set, length-take, length-drop, length-replicate,
  take-append-drop, take_all, take_while-append-drop_while, length-drop_while-le, length-keep_if-le,
  get_or-append, set-append, nil_of_length, length_snoc, get_or-drop, drop_next, get_or_behind,
  take-append_left, take_middle, Bytes, length-append_bytes, length-take_bytes, length-drop_bytes,
  length-replicate_bytes, codes, cstr, strlen, IsText, contains, starts_with, str_eq, cstr_text,
  strlen_text, cstr-IsText, cstr_idem, append-IsText, take-IsText, strncpy, cstr_front,
  get_or-strncpy, lengths, decimal, decimal_injective, length-decimal-le, ℤ, pos, negsuc, ℕ, zero,
  suc, ◌+◌, ◌-◌, ◌*◌, ◌/◌, ◌%◌, ◌^◌, ◌≤◌, ◌<◌, min, ◌≡◌, refl, sym, ap, ap₂, subst, subst₂, ◌∙◌,
  ◌≡⟨◌⟩◌, ◌∎, ◌≢◌, ◌↔◌, ◌⊎◌, inl, inr, Bool, true, false, not, ◌&&◌, ◌||◌, Option, none, some, List,
  [], ◌∷◌, ◌++◌, map, reverse, append-nil, append_assoc, arith,
}

-- The four tests of the loop's body, in their order.
rot13_byte : ℕ → ℕ
rot13_byte c =
    if leb b'a' c && leb c b'm'
    then c + 13
    else if leb b'A' c && leb c b'M'
    then c + 13
    else if leb b'n' c && leb c b'z'
    then c - 13
    else if leb b'N' c && leb c b'Z'
    then c - 13
    else c

-- `for (i = 0; s[i]; i++)`
rot13_loop : Bytes → Bytes
rot13_loop [] = []
rot13_loop (c ∷ cs) = if c == 0 then c ∷ cs else rot13_byte c ∷ rot13_loop cs

pub encode_rot13 : Option Bytes → Option Bytes
unfolding rot13_loop rot13_byte
encode_rot13 none = none
encode_rot13 (some s) = some (rot13_loop s)

rot13_byte_twice : (c : ℕ) → rot13_byte (rot13_byte c) ≡ c
unfolding rot13_byte
rot13_byte_twice c = ground arith

rot13_byte-eq-zero : (c : ℕ) → rot13_byte c ≡ 0 → c ≡ 0
unfolding rot13_byte
rot13_byte-eq-zero c h = ground arith

rot13_loop_twice : (s : Bytes) → rot13_loop (rot13_loop s) ≡ s
unfolding rot13_loop
rot13_loop_twice [] = refl
rot13_loop_twice (c ∷ s) =
    ground (arith, rot13_byte_twice c, rot13_byte-eq-zero c, rot13_loop_twice s)

encode_rot13_twice : (s : Option Bytes) → encode_rot13 (encode_rot13 s) ≡ s
unfolding encode_rot13
encode_rot13_twice none = refl
encode_rot13_twice (some s) = ap some (rot13_loop_twice s)

-- A letter 13 places on in its alphabet of 26, and any other byte as it is.
abbrev pub rotated : ℕ → ℕ
rotated c =
    if leb b'a' c && leb c b'z'
    then b'a' + (c - b'a' + 13) % 26
    else if leb b'A' c && leb c b'Z'
    then b'A' + (c - b'A' + 13) % 26
    else c

rot13_byte-rotated : (c : ℕ) → rot13_byte c ≡ rotated c
unfolding rot13_byte
rot13_byte-rotated c = ground arith

rot13_loop_lem :
    (s rest : Bytes) → IsText s → rot13_loop (s ++ 0 ∷ rest) ≡ map rotated s ++ 0 ∷ rest
unfolding rot13_loop
rot13_loop_lem [] rest h = refl
rot13_loop_lem (c ∷ s) rest h = ground (arith, rot13_byte-rotated c, rot13_loop_lem s rest h.1)

-- Each letter of the string moves 13 places round its alphabet, every other byte stays, and what
-- stands behind the string does not change; encoding once more gives the buffer back.
pub encode_rot13_lem :
    (s rest : Bytes)
    → IsText s
    → let coded = encode_rot13 (some (s ++ 0 ∷ rest)) in
      (coded ≡ some (map rotated s ++ 0 ∷ rest)) × (encode_rot13 coded ≡ some (s ++ 0 ∷ rest))
unfolding encode_rot13
encode_rot13_lem s rest h =
    (ap some (rot13_loop_lem s rest h), encode_rot13_twice (some (s ++ 0 ∷ rest)))
