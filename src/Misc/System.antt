-- ===== src/Misc/System.antt =====
-- misc.c: `is_valid_ip` and `die`. The result of `inet_pton` is an argument, -1, 0 or 1; the text is
-- what the format gives.
use libc_jss.Base.{ℤ, pos, negsuc, ◌==◌, Bool, true, not, Bytes, ◌++◌}

-- `result != 0`
abbrev pub is_valid_ip : ℤ → Bool
is_valid_ip (pos n) = not (n == 0)
is_valid_ip (negsuc n) = true

-- What stands on the standard error afterwards, and the argument of `exit`.
abbrev pub die : Bytes → Bytes → Bytes × ℤ
die formatted printed = (printed ++ formatted, negsuc 0)
