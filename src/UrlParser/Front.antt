-- ===== src/UrlParser/Front.antt =====
-- The steps up to the host.
use libc_jss.Base.{
  ◌==◌, Bool-cases, length, drop, Bytes, ℕ, ◌+◌, ◌≡◌, refl, sym, ap, ◌∙◌, inl, inr, Bool, some, [],
  ◌∷◌, ◌++◌, map, append_assoc, arith,
}
use libc_jss.UrlParser.{
  Heap, Parser, no_fields, read_scheme, skip_slash, read_username, read_password, skip_at,
  read_userpass, check_host, read_host,
}
use libc_jss.UrlParser.Text.{
  to_lower, is_scheme_char, all, upto, onward, starts, has_userpass, host_text, host_rest,
  stop_user,
}
use libc_jss.UrlParser.Holds.{Holds, Holds-bind, Owned, Freed, fail-Freed}
use libc_jss.UrlParser.Render.{lower_scheme, starts-cons, split_at, split_host}
use libc_jss.UrlParser.Facts.{
  Rest4, Rest5, Rest7, Text, Step, and_then, store-Holds, UserRead, PasswordRead, SchemeRead,
}

module _ (grants : ℕ → Bool) (base : ℕ) (target : Bytes) where
  pub check_host-At :
      (n : ℕ) (s : Parser)
      → Owned base s
      → Text target Rest4 s.url s.cur
      → Step base (Text target Rest4) (check_host n s)
  unfolding check_host
  check_host-At n s o e = elim (Bool-cases (n == 0)) [
    | inl m ↦ rw m (fail-Freed base s.url s.heap o)
    | inr m ↦ rw m (o, e)
  ]

  pub read_host-At :
      (s : Parser)
      → Owned base s
      → Text target Rest5 s.url s.cur
      → Step base (Text target Rest4) (read_host grants s)
  unfolding read_host
  read_host-At s o (r, e) =
      Holds-bind (λ t. Owned base t × Text target Rest4 t.url t.cur) _ (Freed base) _ _
        (store-Holds grants base (Text target Rest4) (λ t. record s.url { host = some t })
          (host_text s.cur) (host_rest s.cur) s o (ground arith)
          (r.1, ground (arith, split_host s.cur)))
        λ s' h'. check_host-At (length (host_text s.cur)) s' h'.0 h'.1

  pub read_username-At :
      (s : Parser)
      → Owned base s
      → Text target Rest7 s.url s.cur
      → Step base (UserRead target) (read_username grants s)
  unfolding read_username
  read_username-At s o (r, e) =
      store-Holds grants base (UserRead target) (λ t. record s.url { username = some t }) _ _ s o
        (ground arith) (r.1, refl, ground (arith, split_at stop_user s.cur))

  pub read_password-At :
      (s : Parser)
      → Owned base s
      → UserRead target s.url s.cur
      → Step base (PasswordRead target) (read_password grants s)
  unfolding read_password
  read_password-At s o (r, n, e) = elim (Bool-cases (starts b':' s.cur)) [
    | inl m ↦ rw m (
        store-Holds grants base (PasswordRead target) (λ t. record s.url { password = some t }) _ _
          s o (ground arith)
          (
            r.1,
            n,
            ground (arith, starts-cons b':' s.cur m, split_at (λ c. c == b'@') (drop 1 s.cur)),
          ))
    | inr m ↦ rw m (o, (r.1, n, ground arith))
  ]

  pub skip_at-At :
      (s : Parser)
      → Owned base s
      → PasswordRead target s.url s.cur
      → Step base (Text target Rest5) (skip_at s)
  unfolding skip_at
  skip_at-At s o (r, n, e) = elim (Bool-cases (starts b'@' s.cur)) [
    | inl m ↦ rw m (o, (r, ground (arith, starts-cons b'@' s.cur m)))
    | inr m ↦ rw m (fail-Freed base s.url s.heap o)
  ]

  pub read_userpass-At :
      (s : Parser)
      → Owned base s
      → Text target Rest7 s.url s.cur
      → Step base (Text target Rest5) (read_userpass grants s)
  unfolding read_userpass
  read_userpass-At s o (r, e) = elim (Bool-cases (has_userpass s.cur)) [
    | inl m ↦ rw m (
        and_then base (UserRead target) (Text target Rest5) _ _ (read_username-At s o (r, e))
          λ s o e.
            and_then base (PasswordRead target) (Text target Rest5) _ _ (read_password-At s o e)
              skip_at-At)
    | inr m ↦ rw m (o, (r.1.1, ground arith))
  ]

  pub skip_slash-At :
      (pre : Bytes) (s : Parser)
      → Owned base s
      → SchemeRead target pre s.url s.cur
      → Holds
          (λ t. Owned base t × SchemeRead target (pre ++ b'/' ∷ []) t.url t.cur)
          (Freed base)
          (skip_slash s)
  unfolding skip_slash
  skip_slash-At pre s o (r, e) = elim (Bool-cases (starts b'/' s.cur)) [
    | inl m ↦ rw m (
      o,
      (r, ground (arith, starts-cons b'/' s.cur m, append_assoc pre (b'/' ∷ []) (drop 1 s.cur))),
    )
    | inr m ↦ rw m (fail-Freed base s.url s.heap o)
  ]

  pub read_scheme-At :
      (url : Bytes) (h : Heap)
      → h.live ≡ base + 1
      → lower_scheme url ≡ target
      → Holds
          (λ t. Owned base t × SchemeRead target (b':' ∷ []) t.url t.cur)
          (Freed base)
          (read_scheme grants (record { url = no_fields; cur = url; heap = h }))
  unfolding read_scheme
  read_scheme-At url h o e =
      let name = upto (λ c. c == b':') url in
      let rest = onward (λ c. c == b':') url in
      elim (Bool-cases (starts b':' rest)) [
        | inr m ↦ rw m (fail-Freed base no_fields h (omega arith))
        | inl m ↦ elim (Bool-cases (all is_scheme_char name)) [
          | inr n ↦ rw (m, n) (fail-Freed base no_fields h (omega arith))
          | inl n ↦
              rw (m, n)
                (store-Holds grants base (SchemeRead target (b':' ∷ []))
                  (λ t. record no_fields { scheme = some (map to_lower t) }) name (drop 1 rest)
                  (record { url = no_fields; cur = url; heap = h }) (omega arith) (omega arith)
                  (
                    (refl, (refl, (refl, (refl, (refl, (refl, refl)))))),
                    ap (λ (t : Bytes). map to_lower name ++ t) (sym (starts-cons b':' rest m)) ∙ e,
                  ))
        ]
      ]
