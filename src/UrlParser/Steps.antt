-- ===== src/UrlParser/Steps.antt =====
-- The steps of the parser on a URL that is written from clean parts, if `malloc` grants every block.
use libc_jss.Base.{
  ◌==◌, length, drop, Bytes, ℕ, ◌≡◌, refl, ap, ap₂, subst, subst₂, ◌∙◌, Bool, true, false, not,
  ◌||◌, Option, none, some, [], ◌∷◌, ◌++◌, map, append-nil, arith,
}
use libc_jss.UrlParser.{
  Url, Heap, Parser, no_fields, skip_at, check_host, store, read_scheme, read_username,
  read_password, read_userpass, read_host, read_port, read_path, read_query, read_fragment,
  read_rest,
}
use libc_jss.UrlParser.Text.{
  all, is_scheme_char, to_lower, upto, onward, starts, has_userpass, host_text, stop_user,
  stop_host, stop_path,
}
use libc_jss.UrlParser.Render.{marked, userpass, Halts}
use libc_jss.UrlParser.Parts.{
  Tail, name_of, password_of, path_of, query_of, fragment_of, Avoids, AvoidsIn, ends_user, IsHost,
  upto-append, onward-append, scheme-Avoids, host-append, Avoids-weaker,
}
-- The parser goes on, with these fields and at this text.
use libc_jss.UrlParser.Yields.{
  Yields, at, Yields-bind, Yields-first, Yields-second, tail_text, Halts-user, Halts-tail,
  Halts-hash, Halts-query, has_userpass-user,
}

module _ (grants : ℕ → Bool) (granted : (n : ℕ) → grants n ≡ true) where
  -- A field that is copied, where the text that is found is known.
  pub store-Yields :
      (fill : Bytes → Url) (found rest t r : Bytes) (s : Parser)
      → found ≡ t
      → rest ≡ r
      → Yields (fill t) r (store grants fill found rest s)
  unfolding store
  store-Yields fill found rest t r s e k =
      subst₂ (λ x y. Yields (fill x) y (store grants fill found rest s)) e k
        (rw (granted s.heap.calls) (refl, refl))

  pub read_scheme-Yields :
      (t rest : Bytes) (heap : Heap)
      → all is_scheme_char t ≡ true
      → map to_lower t ≡ t
      → Yields
          (record no_fields { scheme = some t })
          rest
          (read_scheme grants (at no_fields (t ++ b':' ∷ rest) heap))
  unfolding read_scheme
  read_scheme-Yields t rest heap h l =
      let stop = λ (c : ℕ). c == b':' in
      let name = upto-append stop t (b':' ∷ rest) (scheme-Avoids t h) refl in
      let behind = onward-append stop t (b':' ∷ rest) (scheme-Avoids t h) refl in
      let colon = ap (λ s. not (starts b':' s)) behind in
      let chars = ap (λ s. not (all is_scheme_char s)) name ∙ ap not h in
      Yields-second _ _ _ _ _ colon (
        Yields-second _ _ _ _ _ chars (
          subst
            (λ s.
              Yields (record no_fields { scheme = some s }) rest
                (store grants (λ x. record no_fields { scheme = some (map to_lower x) })
                  (upto stop (t ++ b':' ∷ rest)) (drop 1 (onward stop (t ++ b':' ∷ rest)))
                  (at no_fields (t ++ b':' ∷ rest) heap)))
            l
            (store-Yields (λ x. record no_fields { scheme = some (map to_lower x) }) _ _ t rest
              (at no_fields (t ++ b':' ∷ rest) heap) name (ap (drop 1) behind))))

  pub read_host-Yields :
      (u : Url) (t rest : Bytes) (heap : Heap)
      → IsHost t
      → Halts stop_host rest
      → Yields (record u { host = some t }) rest (read_host grants (at u (t ++ rest) heap))
  unfolding read_host check_host
  read_host-Yields u t rest heap h k =
      let (found, behind) = host-append t rest h k in
      let long : (length (host_text (t ++ rest)) == 0) ≡ false =
        ap (λ s. length s == 0) found ∙ ground (arith, h.0) in
      Yields-bind (record u { host = some t }) rest _ _ _ _
        (store-Yields (λ x. record u { host = some x }) _ _ t rest (at u (t ++ rest) heap) found
          behind)
        λ heap. Yields-second _ _ _ _ _ long (refl, refl)

  pub read_password-Yields :
      (u : Url) (password : Option Bytes) (rest : Bytes) (heap : Heap)
      → u.password ≡ none
      → AvoidsIn ends_user password
      → Yields
          (record u { password = password })
          (b'@' ∷ rest)
          (read_password grants (at u (marked b':' password (b'@' ∷ rest)) heap))
  unfolding read_password
  read_password-Yields u none rest heap e h = (ap (λ x. record u { password = x }) e, refl)
  read_password-Yields u (some t) rest heap e h =
      let stop = λ (c : ℕ). c == b'@' in
      let clean = Avoids-weaker stop ends_user t (λ c k. ground (arith, k)) h in
      store-Yields (λ x. record u { password = some x }) _ _ t (b'@' ∷ rest)
        (at u (b':' ∷ (t ++ b'@' ∷ rest)) heap) (upto-append stop t (b'@' ∷ rest) clean refl)
        (onward-append stop t (b'@' ∷ rest) clean refl)

  pub read_username-Yields :
      (u : Url) (name : Bytes) (password : Option Bytes) (rest : Bytes) (heap : Heap)
      → Avoids (λ c. stop_user c || ends_user c) name
      → let cur = marked b':' password (b'@' ∷ rest) in
        Yields
          (record u { username = some name })
          cur
          (read_username grants (at u (name ++ cur) heap))
  unfolding read_username
  read_username-Yields u name password rest heap h =
      let cur = marked b':' password (b'@' ∷ rest) in
      let clean =
        Avoids-weaker stop_user (λ c. stop_user c || ends_user c) name (λ c k. ground (arith, k))
          h in
      store-Yields (λ x. record u { username = some x }) _ _ name cur (at u (name ++ cur) heap)
        (upto-append stop_user name cur clean (Halts-user password rest))
        (onward-append stop_user name cur clean (Halts-user password rest))

  pub read_userpass-Yields :
      (u : Url) (user : Option (Bytes × Option Bytes)) (rest : Bytes) (heap : Heap)
      → (u.username ≡ none) × (u.password ≡ none)
      → AvoidsIn (λ c. stop_user c || ends_user c) (name_of user)
      → AvoidsIn ends_user (password_of user)
      → has_userpass rest ≡ false
      → Yields
          (record u { username = name_of user; password = password_of user })
          rest
          (read_userpass grants (at u (userpass (name_of user) (password_of user) rest) heap))
  unfolding read_userpass skip_at
  read_userpass-Yields u none rest heap e h k n =
      Yields-second _ _ _ _ _ n (ap₂ (λ x y. record u { username = x; password = y }) e.0 e.1, refl)
  read_userpass-Yields u (some (name, password)) rest heap e h k n =
      let cur = marked b':' password (b'@' ∷ rest) in
      let named = record u { username = some name } in
      let whole = record named { password = password } in
      Yields-first _ _ _ _ _ (has_userpass-user name password rest h k) (
        Yields-bind named cur _ _ _ _ (read_username-Yields u name password rest heap h) λ heap.
          Yields-bind whole (b'@' ∷ rest) _ _ _ _
            (read_password-Yields named password rest heap e.1 k) λ heap. (refl, refl))

  pub read_port-Yields :
      (u : Url) (port : Option Bytes) (tail : Option Tail) (heap : Heap)
      → u.port ≡ none
      → AvoidsIn ends_user port
      → Yields
          (record u { port = port })
          (tail_text tail)
          (read_port grants (at u (marked b':' port (tail_text tail)) heap))
  unfolding read_port
  read_port-Yields u none none heap e h = (ap (λ x. record u { port = x }) e, refl)
  read_port-Yields u none (some tail) heap e h = (ap (λ x. record u { port = x }) e, refl)
  read_port-Yields u (some t) tail heap e h =
      let stop = λ (c : ℕ). c == b'/' in
      let clean = Avoids-weaker stop ends_user t (λ c k. ground (arith, k)) h in
      store-Yields (λ x. record u { port = some x }) _ _ t (tail_text tail)
        (at u (b':' ∷ (t ++ tail_text tail)) heap)
        (upto-append stop t (tail_text tail) clean (Halts-tail tail))
        (onward-append stop t (tail_text tail) clean (Halts-tail tail))

  pub read_fragment-Yields :
      (u : Url) (fragment : Option Bytes) (heap : Heap)
      → u.fragment ≡ none
      → Yields
          (record u { fragment = fragment })
          []
          (read_fragment grants (at u (marked b'#' fragment []) heap))
  unfolding read_fragment
  read_fragment-Yields u none heap e = (ap (λ x. record u { fragment = x }) e, refl)
  read_fragment-Yields u (some t) heap e =
      store-Yields (λ x. record u { fragment = some x }) _ _ t [] (at u (b'#' ∷ (t ++ [])) heap)
        (append-nil t) refl

  pub read_query-Yields :
      (u : Url) (query fragment : Option Bytes) (heap : Heap)
      → u.query ≡ none
      → AvoidsIn (λ c. c == b'#') query
      → Yields
          (record u { query = query })
          (marked b'#' fragment [])
          (read_query grants (at u (marked b'?' query (marked b'#' fragment [])) heap))
  unfolding read_query
  read_query-Yields u none none heap e h = (ap (λ x. record u { query = x }) e, refl)
  read_query-Yields u none (some f) heap e h = (ap (λ x. record u { query = x }) e, refl)
  read_query-Yields u (some t) fragment heap e h =
      let stop = λ (c : ℕ). c == b'#' in
      let rest = marked b'#' fragment [] in
      store-Yields (λ x. record u { query = some x }) _ _ t rest (at u (b'?' ∷ (t ++ rest)) heap)
        (upto-append stop t rest h (Halts-hash fragment))
        (onward-append stop t rest h (Halts-hash fragment))

  pub read_rest-Yields :
      (u : Url) (tail : Option Tail) (heap : Heap)
      → (u.path ≡ none) × (u.query ≡ none) × (u.fragment ≡ none)
      → AvoidsIn stop_path (path_of tail)
      → AvoidsIn (λ c. c == b'#') (query_of tail)
      → Yields
          (record u { path = path_of tail; query = query_of tail; fragment = fragment_of tail })
          []
          (read_rest grants (at u (tail_text tail) heap))
  unfolding read_rest read_path
  read_rest-Yields u none heap e h k = (
    ap (λ x. record u { path = x }) e.0
        ∙ ap₂ (λ x y. record u { path = none; query = x; fragment = y }) e.1 e.2,
    refl,
  )
  read_rest-Yields u (some tail) heap e h k =
      let rest = marked b'?' tail.query (marked b'#' tail.fragment []) in
      let a = record u { path = some tail.path } in
      let b = record a { query = tail.query } in
      let stops = Halts-query tail.query tail.fragment in
      let more : (length (b'/' ∷ (tail.path ++ rest)) == 0) ≡ false = ground arith in
      Yields-second _ _ _ _ _ more (
        Yields-bind a rest (record b { fragment = tail.fragment }) [] _ _
          (store-Yields (λ x. record u { path = some x }) _ _ tail.path rest
            (at u (b'/' ∷ (tail.path ++ rest)) heap) (upto-append stop_path tail.path rest h stops)
            (onward-append stop_path tail.path rest h stops))
          λ heap.
            Yields-bind b (marked b'#' tail.fragment []) (record b { fragment = tail.fragment }) []
              _ _ (read_query-Yields a tail.query tail.fragment heap e.1 k)
              λ heap. read_fragment-Yields b tail.fragment heap e.2)
