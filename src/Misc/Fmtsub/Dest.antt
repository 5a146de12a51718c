-- ===== src/Misc/Fmtsub/Dest.antt =====
-- What `fmtsub` writes to the caller's array.
use libc_jss.Base.{
  length, get_or, take, Bytes, strncpy, get_or-strncpy, ℕ, ◌-◌, ◌<◌, ◌≡◌, sym, ap, ◌∙◌, ◌⊎◌, inl,
  inr, Option, none, some, arith,
}
use libc_jss.Misc.Fmtsub.{Args, last_byte, start, fmtsub, fmtsub_loop}
use libc_jss.Misc.Fmtsub.Expand.{Expands, fmtsub_loop-start}

module _ (dest : Bytes) (size : ℕ) (pattern : Bytes) (args : Args) (p : 0 < length pattern) where
  fmtsub_value :
      0 < size
      → let r = fmtsub_loop (length pattern) args (start pattern) in
        fmtsub (some dest) size (some pattern) (some args)
        ≡ some (strncpy dest (take r.posbuf r.buf) (size - 1))
  unfolding fmtsub
  fmtsub_value s = ground arith

  fmtsub_no_size : size ≡ 0 → fmtsub (some dest) size (some pattern) (some args) ≡ none
  unfolding fmtsub
  fmtsub_no_size s = ground arith

abbrev byte_of : ℕ → Option Bytes → ℕ
byte_of i none = 0
byte_of i (some b) = get_or b i 0

zero_or_pos : (n : ℕ) → (n ≡ 0) ⊎ (0 < n)
zero_or_pos n = ground arith

-- The last byte of the array is never written by a call with a pattern that is not empty.
get_or-fmtsub :
    (dest : Bytes) (size : ℕ) (pattern : Bytes) (args : Args) (after : Bytes)
    → 0 < length pattern
    → fmtsub (some dest) size (some pattern) (some args) ≡ some after
    → get_or after (size - 1) 0 ≡ get_or dest (size - 1) 0
get_or-fmtsub dest size pattern args after p e = elim (zero_or_pos size) [
  | inl z ↦ cc (fmtsub_no_size dest size pattern args p z)
  | inr s ↦
      ap (byte_of (size - 1)) (sym e ∙ fmtsub_value dest size pattern args p s)
      ∙ get_or-strncpy dest _ (size - 1)
]

-- For a pattern that is not empty and an array with room, `fmtsub` returns 0 and writes the first
-- 4095 bytes of the expansion with `strncpy`, `size - 1` bytes in all. The last byte of the array
-- stays as it was, so that the result has no end if that byte is not 0 before the call and the
-- expansion is too long.
pub fmtsub_lem :
    (dest : Bytes) (size : ℕ) (pattern : Bytes) (args : Args) (out : Bytes)
    → 0 < size
    → 0 < length pattern
    → Expands args pattern out
    → let after = strncpy dest (take last_byte out) (size - 1) in
      (fmtsub (some dest) size (some pattern) (some args) ≡ some after)
      × (get_or after (size - 1) 0 ≡ get_or dest (size - 1) 0)
fmtsub_lem dest size pattern args out s p x =
    let written =
      fmtsub_value dest size pattern args p s
      ∙ ap (λ (src : Bytes). some (strncpy dest src (size - 1)))
          (fmtsub_loop-start args pattern out x) in
    (written, get_or-fmtsub dest size pattern args _ p written)
