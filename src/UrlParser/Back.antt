-- ===== src/UrlParser/Back.antt =====
-- The steps behind the host.
use libc_jss.Base.{
  ◌==◌, ==_iff, Bool-cases, length, drop, nil_of_length, Bytes, ℕ, refl, inl, inr, Bool, some, [],
  append-nil, arith,
}
use libc_jss.UrlParser.{Parser, read_port, read_path, read_query, read_fragment, read_rest}
use libc_jss.UrlParser.Text.{starts, stop_path}
use libc_jss.UrlParser.Holds.{Holds, Owned, Freed, fail-Freed}
use libc_jss.UrlParser.Render.{starts-cons, split_at, onward-Halts, halted, Halts-at_hash}
use libc_jss.UrlParser.Facts.{
  Rest1, Rest2, Rest3, Rest4, Text, Step, and_then, store-Holds, Stopped, Whole,
}

module _ (grants : ℕ → Bool) (base : ℕ) (target : Bytes) where
  pub read_fragment-At :
      (s : Parser)
      → Owned base s
      → Stopped target Rest1 (λ c. c == b'#') s.url s.cur
      → Step base (Whole target) (read_fragment grants s)
  unfolding read_fragment
  read_fragment-At s o (r, e, k) = elim (Bool-cases (starts b'#' s.cur)) [
    | inl m ↦ rw m (
        store-Holds grants base (Whole target) (λ t. record s.url { fragment = some t })
          (drop 1 s.cur) [] s o (ground arith)
          (ground (arith, starts-cons b'#' s.cur m, append-nil (drop 1 s.cur)), refl))
    | inr m ↦ rw m (o, (e, halted b'#' s.cur k m))
  ]

  pub read_query-At :
      (s : Parser)
      → Owned base s
      → Stopped target Rest2 stop_path s.url s.cur
      → Holds
          (λ t. Owned base t × Stopped target Rest1 (λ c. c == b'#') t.url t.cur)
          (Freed base)
          (read_query grants s)
  unfolding read_query
  read_query-At s o (r, e, k) = elim (Bool-cases (starts b'?' s.cur)) [
    | inl m ↦
        let stop = λ (c : ℕ). c == b'#' in
        rw m (
          store-Holds grants base (Stopped target Rest1 stop) (λ t. record s.url { query = some t })
            _ _ s o (ground arith)
            (
              r.1,
              ground (arith, starts-cons b'?' s.cur m, split_at stop (drop 1 s.cur)),
              onward-Halts stop (drop 1 s.cur),
            ))
    | inr m ↦ rw m (o, (r.1, e, Halts-at_hash s.cur k m))
  ]

  pub read_path-At :
      (s : Parser)
      → Owned base s
      → Text target Rest3 s.url s.cur
      → Holds
          (λ t. Owned base t × Stopped target Rest2 stop_path t.url t.cur)
          (Freed base)
          (read_path grants s)
  unfolding read_path
  read_path-At s o (r, e) = elim (Bool-cases (starts b'/' s.cur)) [
    | inl m ↦ rw m (
        store-Holds grants base (Stopped target Rest2 stop_path)
          (λ t. record s.url { path = some t }) _ _ s o (ground arith)
          (
            r.1,
            ground (arith, starts-cons b'/' s.cur m, split_at stop_path (drop 1 s.cur)),
            onward-Halts stop_path (drop 1 s.cur),
          ))
    | inr m ↦ rw m (fail-Freed base s.url s.heap o)
  ]

  pub read_rest-At :
      (s : Parser)
      → Owned base s
      → Text target Rest3 s.url s.cur
      → Step base (Whole target) (read_rest grants s)
  unfolding read_rest
  read_rest-At s o e = elim (Bool-cases (length s.cur == 0)) [
    | inl m ↦ rw m (o, (e.1, nil_of_length s.cur ((==_iff _ 0).0 m)))
    | inr m ↦ rw m (
        and_then base (Stopped target Rest2 stop_path) (Whole target) _ _ (read_path-At s o e)
          λ s o e.
            and_then base (Stopped target Rest1 (λ c. c == b'#')) (Whole target) _ _
              (read_query-At s o e) read_fragment-At)
  ]

  pub read_port-At :
      (s : Parser)
      → Owned base s
      → Text target Rest4 s.url s.cur
      → Step base (Text target Rest3) (read_port grants s)
  unfolding read_port
  read_port-At s o (r, e) = elim (Bool-cases (starts b':' s.cur)) [
    | inl m ↦ rw m (
        store-Holds grants base (Text target Rest3) (λ t. record s.url { port = some t }) _ _ s o
          (ground arith)
          (r.1, ground (arith, starts-cons b':' s.cur m, split_at (λ c. c == b'/') (drop 1 s.cur))))
    | inr m ↦ rw m (o, (r.1, e))
  ]
