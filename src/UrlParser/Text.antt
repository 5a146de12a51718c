-- ===== src/UrlParser/Text.antt =====
-- htclient/url_parser.c: the tests on bytes, and where a field of a URL ends.
use libc_jss.Base.{
  leb, ◌==◌, if◌then◌else◌, take_while, drop_while, Bytes, ℕ, ◌+◌, Bool, true, false, not, ◌&&◌,
  ◌||◌, [], ◌∷◌,
}

abbrev pub is_alpha : ℕ → Bool
is_alpha c = (leb b'a' c && leb c b'z') || (leb b'A' c && leb c b'Z')

abbrev pub to_lower : ℕ → ℕ
to_lower c = if leb b'A' c && leb c b'Z' then c + 32 else c

-- `_is_scheme_char`
unfoldable pub is_scheme_char : ℕ → Bool
is_scheme_char c = not (not (is_alpha c) && not (c == b'+') && not (c == b'-') && not (c == b'.'))

abbrev pub all : (ℕ → Bool) → Bytes → Bool
all p [] = true
all p (c ∷ s) = p c && all p s

-- The text up to the first byte that passes the test, and the rest from there.
abbrev pub upto : (ℕ → Bool) → Bytes → Bytes
upto stop s = take_while (λ c. not (stop c)) s

abbrev pub onward : (ℕ → Bool) → Bytes → Bytes
onward stop s = drop_while (λ c. not (stop c)) s

abbrev pub starts : ℕ → Bytes → Bool
starts c [] = false
starts c (x ∷ s) = x == c

-- `'@'` before `'/'` and before the end
unfoldable pub has_userpass : Bytes → Bool
has_userpass [] = false
has_userpass (c ∷ s) = if c == b'@' then true else if c == b'/' then false else has_userpass s

-- A host in brackets ends behind its `']'`, or at the end of the text.
unfoldable pub bracketed : Bytes → Bytes
bracketed [] = []
bracketed (c ∷ s) = if c == b']' then c ∷ [] else c ∷ bracketed s

unfoldable pub behind_bracket : Bytes → Bytes
behind_bracket [] = []
behind_bracket (c ∷ s) = if c == b']' then s else behind_bracket s

abbrev pub stop_user : ℕ → Bool
stop_user c = c == b':' || c == b'@'

abbrev pub stop_host : ℕ → Bool
stop_host c = c == b':' || c == b'/'

abbrev pub host_text : Bytes → Bytes
host_text cur = if starts b'[' cur then bracketed cur else upto stop_host cur

abbrev pub host_rest : Bytes → Bytes
host_rest cur = if starts b'[' cur then behind_bracket cur else onward stop_host cur

abbrev pub stop_path : ℕ → Bool
stop_path c = c == b'#' || c == b'?'
