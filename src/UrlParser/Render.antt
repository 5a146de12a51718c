-- ===== src/UrlParser/Render.antt =====
-- A URL written out, and what the byte tests of the parser say of a text.
use libc_jss.Base.{
  ◌==◌, drop, take_while-append-drop_while, Bytes, ℕ, ◌≡◌, refl, Bool, true, false, not, Option,
  none, some, [], ◌∷◌, ◌++◌, map, arith,
}
use libc_jss.UrlParser.{Url}
use libc_jss.UrlParser.Text.{
  to_lower, upto, onward, starts, bracketed, behind_bracket, host_text, host_rest, stop_host,
  stop_path,
}

abbrev pub text : Option Bytes → Bytes → Bytes
text none rest = rest
text (some t) rest = t ++ rest

-- A field behind its mark.
abbrev pub marked : ℕ → Option Bytes → Bytes → Bytes
marked c none rest = rest
marked c (some t) rest = c ∷ (t ++ rest)

abbrev pub userpass : Option Bytes → Option Bytes → Bytes → Bytes
userpass none password rest = rest
userpass (some name) password rest = name ++ marked b':' password (b'@' ∷ rest)

abbrev pub ending : Url → Bytes → Bytes
ending u rest = marked b'/' u.path (marked b'?' u.query (marked b'#' u.fragment rest))

-- `<scheme>://<user>:<password>@<host>:<port>/<path>?<query>#<fragment>`
abbrev pub render : Url → Bytes → Bytes
render u rest = text u.scheme (
    b':'
    ∷ b'/'
    ∷ b'/'
    ∷ userpass u.username u.password (text u.host (marked b':' u.port (ending u rest))))

-- The text with its scheme in lower case.
abbrev pub lower_scheme : Bytes → Bytes
lower_scheme url = map to_lower (upto (λ c. c == b':') url) ++ onward (λ c. c == b':') url

pub starts-cons : (c : ℕ) (s : Bytes) → starts c s ≡ true → s ≡ c ∷ drop 1 s
starts-cons c [] e = cc
starts-cons c (x ∷ s) e = ground arith

pub split_at : (stop : ℕ → Bool) (s : Bytes) → upto stop s ++ onward stop s ≡ s
split_at stop s = take_while-append-drop_while (λ c. not (stop c)) s

pub bracketed-append-behind_bracket : (s : Bytes) → bracketed s ++ behind_bracket s ≡ s
unfolding bracketed behind_bracket
bracketed-append-behind_bracket [] = refl
bracketed-append-behind_bracket (c ∷ s) = ground (arith, bracketed-append-behind_bracket s)

pub split_host : (s : Bytes) → host_text s ++ host_rest s ≡ s
split_host s = ground (arith, bracketed-append-behind_bracket s, split_at stop_host s)

abbrev pub Halts : (ℕ → Bool) → Bytes → Type 0
Halts stop [] = Unit {0}
Halts stop (c ∷ s) = stop c ≡ true

pub onward-Halts : (stop : ℕ → Bool) (s : Bytes) → Halts stop (onward stop s)
onward-Halts stop [] = tt
onward-Halts stop (c ∷ s) = ground (arith, onward-Halts stop s)

pub halted : (c : ℕ) (s : Bytes) → Halts (λ x. x == c) s → starts c s ≡ false → s ≡ []
halted c [] k m = refl
halted c (x ∷ s) k m = cc

pub Halts-at_hash :
    (s : Bytes) → Halts stop_path s → starts b'?' s ≡ false → Halts (λ c. c == b'#') s
Halts-at_hash [] k m = tt
Halts-at_hash (x ∷ s) k m = ground arith
