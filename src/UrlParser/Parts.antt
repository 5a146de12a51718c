-- ===== src/UrlParser/Parts.antt =====
-- The parts of a URL that the parser tells apart again, and what it finds in front of the byte that
-- ends a part.
use libc_jss.Base.{
  ◌==◌, if_false, length, Bytes, ℕ, ◌<◌, ◌≡◌, refl, sym, ap, subst, ◌∙◌, ◌⊎◌, inl, inr, Bool, true,
  false, not, ◌||◌, Option, none, some, [], ◌∷◌, ◌++◌, map, append_assoc, arith,
}
use libc_jss.UrlParser.{Url}
use libc_jss.UrlParser.Text.{
  to_lower, is_scheme_char, all, upto, onward, starts, has_userpass, bracketed, behind_bracket,
  host_text, host_rest, stop_user, stop_host, stop_path,
}
use libc_jss.UrlParser.Render.{Halts}

-- A path, with what may follow it.
pub record Tail : Type 0 where
  pub path : Bytes
  pub query : Option Bytes
  pub fragment : Option Bytes

-- A password only behind a name, and a query or a fragment only behind a path.
pub record Parts : Type 0 where
  pub scheme : Bytes
  pub user : Option (Bytes × Option Bytes)
  pub host : Bytes
  pub port : Option Bytes
  pub tail : Option Tail

abbrev pub name_of : Option (Bytes × Option Bytes) → Option Bytes
name_of none = none
name_of (some (name, password)) = some name

abbrev pub password_of : Option (Bytes × Option Bytes) → Option Bytes
password_of none = none
password_of (some (name, password)) = password

abbrev pub path_of : Option Tail → Option Bytes
path_of none = none
path_of (some t) = some t.path

abbrev pub query_of : Option Tail → Option Bytes
query_of none = none
query_of (some t) = t.query

abbrev pub fragment_of : Option Tail → Option Bytes
fragment_of none = none
fragment_of (some t) = t.fragment

abbrev pub url_of : Parts → Url
url_of p = record {
  scheme = some p.scheme;
  host = some p.host;
  port = p.port;
  path = path_of p.tail;
  query = query_of p.tail;
  fragment = fragment_of p.tail;
  username = name_of p.user;
  password = password_of p.user;
}

-- No byte of the text passes the test.
abbrev pub Avoids : (ℕ → Bool) → Bytes → Type 0
Avoids stop t = all (λ c. not (stop c)) t ≡ true

abbrev pub AvoidsIn : (ℕ → Bool) → Option Bytes → Type 0
AvoidsIn stop none = Unit {0}
AvoidsIn stop (some t) = Avoids stop t

abbrev pub ends_user : ℕ → Bool
ends_user c = c == b'@' || c == b'/'

-- A host: a text without `':'` and `'/'` that does not begin with a bracket, or a text in brackets.
abbrev pub IsHost : Bytes → Type 0
IsHost host =
    (0 < length host)
    × ((starts b'[' host ≡ false) × Avoids stop_host host
        ⊎ (t : Bytes) × (host ≡ b'[' ∷ (t ++ b']' ∷ [])) × Avoids (λ c. c == b']') t)

-- The bytes that would end a part do not stand in it, and the scheme is in lower case.
pub record AreClean (p : Parts) : Type 0 where
  pub scheme : (all is_scheme_char p.scheme ≡ true) × (map to_lower p.scheme ≡ p.scheme)
  pub name : AvoidsIn (λ c. stop_user c || ends_user c) (name_of p.user)
  pub password : AvoidsIn ends_user (password_of p.user)
  pub host : IsHost p.host × Avoids ends_user p.host
  pub port : AvoidsIn ends_user p.port
  pub path : AvoidsIn stop_path (path_of p.tail)
  pub query : AvoidsIn (λ c. c == b'#') (query_of p.tail)

module _ (stop : ℕ → Bool) where
  pub upto-append : (t rest : Bytes) → Avoids stop t → Halts stop rest → upto stop (t ++ rest) ≡ t
  upto-append [] [] h k = refl
  upto-append [] (c ∷ rest) h k = rw k
  upto-append (c ∷ t) rest h k = ground (arith, upto-append t rest)

  pub onward-append :
      (t rest : Bytes) → Avoids stop t → Halts stop rest → onward stop (t ++ rest) ≡ rest
  onward-append [] [] h k = refl
  onward-append [] (c ∷ rest) h k = rw k
  onward-append (c ∷ t) rest h k = ground (arith, onward-append t rest)

pub has_userpass-append :
    (t rest : Bytes) → Avoids ends_user t → has_userpass (t ++ rest) ≡ has_userpass rest
unfolding has_userpass
has_userpass-append [] rest h = refl
has_userpass-append (c ∷ t) rest h = ground (arith, has_userpass-append t rest)

scheme_char : (c : ℕ) → is_scheme_char c ≡ true → not (c == b':') ≡ true
unfolding is_scheme_char
scheme_char c h = ground arith

pub scheme-Avoids : (t : Bytes) → all is_scheme_char t ≡ true → Avoids (λ c. c == b':') t
scheme-Avoids [] h = refl
scheme-Avoids (c ∷ t) h = ground (arith, scheme_char c, scheme-Avoids t)

bracketed-append :
    (t rest : Bytes)
    → Avoids (λ c. c == b']') t
    → (bracketed (t ++ b']' ∷ rest) ≡ t ++ b']' ∷ []) × (behind_bracket (t ++ b']' ∷ rest) ≡ rest)
unfolding bracketed behind_bracket
bracketed-append [] rest h = (refl, refl)
bracketed-append (c ∷ t) rest h = ground (arith, bracketed-append t rest)

in_brackets :
    (t rest : Bytes)
    → Avoids (λ c. c == b']') t
    → let host = b'[' ∷ (t ++ b']' ∷ []) in
      (host_text (host ++ rest) ≡ host) × (host_rest (host ++ rest) ≡ rest)
unfolding bracketed behind_bracket
in_brackets t rest a =
    let (front, behind) = bracketed-append t rest a in
    rw (append_assoc t (b']' ∷ []) rest) (ap (◌∷◌ b'[') front, behind)

-- The host is read off in front of its port, its path or the end.
pub host-append :
    (host rest : Bytes)
    → IsHost host
    → Halts stop_host rest
    → (host_text (host ++ rest) ≡ host) × (host_rest (host ++ rest) ≡ rest)
host-append [] rest (h, r) k = absurd (omega (arith, h))
host-append (c ∷ t) rest (h, inl (n, a)) k = (
  if_false (c == b'[') _ _ n ∙ upto-append stop_host (c ∷ t) rest a k,
  if_false (c == b'[') _ _ n ∙ onward-append stop_host (c ∷ t) rest a k,
)
host-append (c ∷ t) rest (h, inr (inside, e, a)) k =
    subst (λ host. (host_text (host ++ rest) ≡ host) × (host_rest (host ++ rest) ≡ rest)) (sym e)
      (in_brackets inside rest a)

pub Avoids-weaker :
    (p q : ℕ → Bool) (t : Bytes) → ((c : ℕ) → p c ≡ true → q c ≡ true) → Avoids q t → Avoids p t
Avoids-weaker p q [] f h = refl
Avoids-weaker p q (c ∷ t) f h = ground (arith, f c, Avoids-weaker p q t f)
