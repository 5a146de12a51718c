-- ===== src/Misc/Strip.antt =====
-- misc.c, `chomp` and `_trim` (with its macros `trim`, `ltrim` and `rtrim`), on the whole buffer:
-- every write goes through an index, and the string is what stands before the first 0.
-- A `NULL` argument is `none`. The `int` indices are exact for strings below 2 ^ 31 bytes.
pub mod Back
pub mod Front
mod Examples
use libc_jss.Base.{
  ℕ, zero, suc, ◌-◌, Bool, true, false, ◌||◌, Option, none, some, ltb, ◌==◌, if◌then◌else◌, Bytes,
  get_or, set, strlen,
}

abbrev pub is_eol : ℕ → Bool
is_eol c = c == b'\n' || c == b'\r'

abbrev pub is_blank : ℕ → Bool
is_blank c = c == 32 || c == b'\t'

-- `for (n = len - 1; n >= 0; n--)`, clearing bytes while they pass the test. Also returns how
-- many bytes are left in front.
unfoldable pub clear_back : (ℕ → Bool) → ℕ → Bytes → Bytes × ℕ
clear_back p zero s = (s, zero)
clear_back p (suc n) s =
    let rest = clear_back p n (set s n 0) in if p (get_or s n 0) then rest else (s, suc n)

unfoldable pub chomp : Option Bytes → Option Bytes
chomp none = none
chomp (some s) = some (clear_back is_eol (strlen s) s).0

-- `for (n = 0; n < len; n++)`, up to the first byte that is not blank; `k` is `len - n`.
first_kept : ℕ → Bytes → ℕ → ℕ
first_kept zero s n = n
first_kept (suc k) s n =
    let rest = first_kept k s (suc n) in if is_blank (get_or s n 0) then rest else n

-- `for (i = n; i < len; i++) s[i-n] = s[i];` with `k` rounds left
shift_left : ℕ → Bytes → ℕ → ℕ → Bytes
shift_left zero s i n = s
shift_left (suc k) s i n = shift_left k (set s (i - n) (get_or s i 0)) (suc i) n

-- `for (i = len - n; i < len; i++) s[i] = '\0';` with `k` rounds left
fill_zero : ℕ → Bytes → ℕ → Bytes
fill_zero zero s i = s
fill_zero (suc k) s i = fill_zero k (set s i 0) (suc i)

trim_left : Bytes → ℕ → Bytes
trim_left s len =
    let n = first_kept len s 0 in
    if ltb 0 n then fill_zero n (shift_left (len - n) s n n) (len - n) else s

trim_right : Bool → Bytes → Bytes × ℕ
trim_right true s = clear_back is_blank (strlen s) s
trim_right false s = (s, strlen s)

-- `_trim (s, trim_from_left, trim_from_right)`
pub trim : Option Bytes → Bool → Bool → Option Bytes
trim none left right = none
trim (some s) left right =
    let (t, len) = trim_right right s in some (if left then trim_left t len else t)
