-- ===== src/UrlParser/Yields.antt =====
-- What a step of the parser goes on with, and where the parts of a written URL end.
use libc_jss.Base.{
  ◌==◌, if◌then◌else◌, if_true, if_false, Bytes, ◌≡◌, refl, sym, subst, subst₂, ◌∙◌, Bool, true,
  false, ◌||◌, Option, none, some, [], ◌∷◌, ◌++◌, arith,
}
use libc_jss.UrlParser.{Url, Heap, Parser, Result, ok, null, ◌>>=◌, skip_slash}
use libc_jss.UrlParser.Text.{has_userpass, stop_user, stop_host, stop_path}
use libc_jss.UrlParser.Render.{marked, Halts}
use libc_jss.UrlParser.Parts.{
  Tail, path_of, query_of, fragment_of, Avoids, AvoidsIn, ends_user, has_userpass-append,
  Avoids-weaker,
}

-- The parser goes on, with these fields and at this text.
abbrev pub Yields : Url → Bytes → Result → Type 0
Yields u cur (ok s) = (s.url ≡ u) × (s.cur ≡ cur)
Yields u cur (null h) = ⊥

abbrev pub at : Url → Bytes → Heap → Parser
at u cur heap = record { url = u; cur = cur; heap = heap }

pub Yields-bind :
    (u : Url) (cur : Bytes) (v : Url) (end : Bytes) (m : Result) (f : Parser → Result)
    → Yields u cur m
    → ((heap : Heap) → Yields v end (f (at u cur heap)))
    → Yields v end (m >>= f)
Yields-bind u cur v end (ok s) f h k =
    subst₂ (λ x y. Yields v end (f (at x y s.heap))) (sym h.0) (sym h.1) (k s.heap)
Yields-bind u cur v end (null heap) f h k = elim h [ ]

pub Yields-first :
    (u : Url) (cur : Bytes) (b : Bool) (x y : Result)
    → b ≡ true
    → Yields u cur x
    → Yields u cur (if b then x else y)
Yields-first u cur b x y e h = subst (Yields u cur) (sym (if_true b x y e)) h

pub Yields-second :
    (u : Url) (cur : Bytes) (b : Bool) (x y : Result)
    → b ≡ false
    → Yields u cur y
    → Yields u cur (if b then x else y)
Yields-second u cur b x y e h = subst (Yields u cur) (sym (if_false b x y e)) h

abbrev pub tail_text : Option Tail → Bytes
tail_text tail =
    marked b'/' (path_of tail) (marked b'?' (query_of tail) (marked b'#' (fragment_of tail) []))

pub Halts-user :
    (password : Option Bytes) (rest : Bytes) → Halts stop_user (marked b':' password (b'@' ∷ rest))
Halts-user none rest = refl
Halts-user (some t) rest = refl

pub Halts-tail : (tail : Option Tail) → Halts (λ c. c == b'/') (tail_text tail)
Halts-tail none = tt
Halts-tail (some tail) = refl

pub Halts-port :
    (port : Option Bytes) (tail : Option Tail) → Halts stop_host (marked b':' port (tail_text tail))
Halts-port none none = tt
Halts-port none (some tail) = refl
Halts-port (some t) tail = refl

pub Halts-hash : (fragment : Option Bytes) → Halts (λ c. c == b'#') (marked b'#' fragment [])
Halts-hash none = tt
Halts-hash (some t) = refl

pub Halts-query :
    (query fragment : Option Bytes) → Halts stop_path (marked b'?' query (marked b'#' fragment []))
Halts-query none none = tt
Halts-query none (some f) = refl
Halts-query (some q) fragment = refl

pub has_userpass-user :
    (name : Bytes) (password : Option Bytes) (rest : Bytes)
    → Avoids (λ c. stop_user c || ends_user c) name
    → AvoidsIn ends_user password
    → has_userpass (name ++ marked b':' password (b'@' ∷ rest)) ≡ true
unfolding has_userpass
has_userpass-user name none rest h k =
    has_userpass-append name (b'@' ∷ rest)
      (Avoids-weaker ends_user (λ c. stop_user c || ends_user c) name (λ c e. ground (arith, e)) h)
has_userpass-user name (some t) rest h k =
    has_userpass-append name (b':' ∷ (t ++ b'@' ∷ rest))
      (Avoids-weaker ends_user (λ c. stop_user c || ends_user c) name (λ c e. ground (arith, e)) h)
    ∙ has_userpass-append t (b'@' ∷ rest) k

pub has_userpass-tail : (tail : Option Tail) → has_userpass (tail_text tail) ≡ false
unfolding has_userpass
has_userpass-tail none = refl
has_userpass-tail (some tail) = refl

pub has_userpass-port :
    (port : Option Bytes) (tail : Option Tail)
    → AvoidsIn ends_user port
    → has_userpass (marked b':' port (tail_text tail)) ≡ false
unfolding has_userpass
has_userpass-port none tail h = has_userpass-tail tail
has_userpass-port (some t) tail h =
    has_userpass-append t (tail_text tail) h ∙ has_userpass-tail tail

pub skip_slash-Yields :
    (u : Url) (cur : Bytes) (heap : Heap) → Yields u cur (skip_slash (at u (b'/' ∷ cur) heap))
unfolding skip_slash
skip_slash-Yields u cur heap = (refl, refl)
