-- ===== src/UrlParser/Accepts.antt =====
-- The parser accepts a URL that is written from clean parts, and finds the parts again.
use libc_jss.Base.{ℕ, ◌+◌, ◌≡◌, refl, ap, ◌∙◌, Bool, true, Option, some, [], ◌∷◌, ◌++◌}
use libc_jss.UrlParser.{
  Url, Heap, Parser, Result, ok, null, ◌>>=◌, no_fields, returned, skip_slash, read_userpass,
  read_host, read_port, read_rest, read_url, parse_url,
}
use libc_jss.UrlParser.Whole.{malloc_granted}
use libc_jss.UrlParser.Render.{marked, userpass, render}
use libc_jss.UrlParser.Parts.{Parts, name_of, password_of, url_of, AreClean, has_userpass-append}
-- The parser goes on, with these fields and at this text.
use libc_jss.UrlParser.Yields.{
  Yields, at, Yields-bind, tail_text, Halts-port, has_userpass-port, skip_slash-Yields,
}
use libc_jss.UrlParser.Steps.{
  read_scheme-Yields, read_host-Yields, read_userpass-Yields, read_port-Yields, read_rest-Yields,
}

module _ (grants : ℕ → Bool) (granted : (n : ℕ) → grants n ≡ true) where
  read_url-Yields :
      (p : Parts) (heap : Heap)
      → AreClean p
      → Yields (url_of p) [] (read_url grants (at no_fields (render (url_of p) []) heap))
  unfolding read_url
  read_url-Yields p heap h =
      let rest = marked b':' p.port (tail_text p.tail) in
      let hosted = p.host ++ rest in
      let a = record no_fields { scheme = some p.scheme } in
      let b = record a { username = name_of p.user; password = password_of p.user } in
      let c = record b { host = some p.host } in
      let d = record c { port = p.port } in
      let login = userpass (name_of p.user) (password_of p.user) hosted in
      let no_login =
        has_userpass-append p.host rest h.host.1 ∙ has_userpass-port p.port p.tail h.port in
      let then_port = λ (s : Parser). read_port grants s >>= read_rest grants in
      let then_host = λ (s : Parser). read_host grants s >>= then_port in
      let then_user = λ (s : Parser). read_userpass grants s >>= then_host in
      let then_slash = λ (s : Parser). skip_slash s >>= then_user in
      Yields-bind a (b'/' ∷ b'/' ∷ login) (url_of p) [] _ (λ s. skip_slash s >>= then_slash)
        (read_scheme-Yields grants granted p.scheme (b'/' ∷ b'/' ∷ login) heap h.scheme.0
          h.scheme.1)
        λ heap.
          Yields-bind a (b'/' ∷ login) (url_of p) [] (skip_slash (at a (b'/' ∷ b'/' ∷ login) heap))
            then_slash (skip_slash-Yields a (b'/' ∷ login) heap)
            λ heap.
              Yields-bind a login (url_of p) [] (skip_slash (at a (b'/' ∷ login) heap)) then_user
                (skip_slash-Yields a login heap)
                λ heap.
                  Yields-bind b hosted (url_of p) [] _ then_host
                    (read_userpass-Yields grants granted a p.user hosted heap (refl, refl) h.name
                      h.password no_login)
                    λ heap.
                      Yields-bind c rest (url_of p) [] _ then_port
                        (read_host-Yields grants granted b p.host rest heap h.host.0
                          (Halts-port p.port p.tail))
                        λ heap.
                          Yields-bind d (tail_text p.tail) (url_of p) [] _ (read_rest grants)
                            (read_port-Yields grants granted c p.port p.tail heap refl h.port)
                            λ heap.
                              read_rest-Yields grants granted d p.tail heap (refl, refl, refl)
                                h.path h.query

returned-Yields : (u : Url) (r : Result) → Yields u [] r → (returned r).0 ≡ some u
returned-Yields u (ok s) h = ap some h.0
returned-Yields u (null heap) h = elim h [ ]

-- If `malloc` grants every block, a URL that is written out from parts in which no byte stands
-- that would end the part, with its scheme in lower case, is accepted, and `parse_url` returns
-- exactly these parts. A host is a text without `':'` or `'/'`, or a text in brackets.
pub parse_url-render :
    (grants : ℕ → Bool) (p : Parts) (h : Heap)
    → ((n : ℕ) → grants n ≡ true)
    → AreClean p
    → (parse_url grants (render (url_of p) []) h).0 ≡ some (url_of p)
parse_url-render grants p h granted clean =
    let heap : Heap = record { calls = h.calls + 1; live = h.live + 1 } in
    ap (λ (r : Option Url × Heap). r.0)
      (malloc_granted grants (render (url_of p) []) h (granted h.calls))
    ∙ returned-Yields (url_of p) (read_url grants (at no_fields (render (url_of p) []) heap))
        (read_url-Yields grants granted p heap clean)
