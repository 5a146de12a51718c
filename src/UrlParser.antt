-- ===== src/UrlParser.antt =====
-- htclient/url_parser.c: `parse_url` and `parsed_url_free`. The text is the bytes before its 0, and
-- the pointer `curstr` is what is left of it. `malloc` answers by an oracle, `grants`, which is
-- asked with the number of the call, and the heap counts the blocks that are live.
pub mod Text
pub mod Holds
pub mod Render
pub mod Facts
pub mod Back
pub mod Front
pub mod Whole
pub mod Parts
pub mod Yields
pub mod Steps
pub mod Accepts
mod Examples
use libc_jss.Base.{
  ltb, leb, ◌==◌, if◌then◌else◌, if_true, if_false, ltb→lt, lt→ltb, le_of_not_ltb, leb→le, ==_iff,
  ==_refl, Bool-cases, Option-cases, length, get_or, set, take, drop, replicate, reverse_onto,
  take_while, drop_while, keep_if, length-append, length-set, length-take, length-drop,
  length-replicate, take-append-drop, take_all, take_while-append-drop_while, length-drop_while-le,
  length-keep_if-le, get_or-append, set-append, nil_of_length, length_snoc, get_or-drop, drop_next,
  get_or_behind, take-append_left, take_middle, Bytes, length-append_bytes, length-take_bytes,
  length-drop_bytes, length-replicate_bytes, codes, cstr, strlen, IsText, contains, starts_with,
  str_eq, cstr_text, strlen_text, cstr-IsText, cstr_idem, append-IsText, take-IsText, strncpy,
  cstr_front, get_or-strncpy, lengths, decimal, decimal_injective, length-decimal-le, ℤ, pos,
  negsuc, ℕ, zero, suc, ◌+◌, ◌-◌, ◌*◌, ◌/◌, ◌%◌, ◌^◌, ◌≤◌, ◌<◌, min, ◌≡◌, refl, sym, ap, ap₂, subst,
  subst₂, ◌∙◌, ◌≡⟨◌⟩◌, ◌∎, ◌≢◌, ◌↔◌, ◌⊎◌, inl, inr, Bool, true, false, not, ◌&&◌, ◌||◌, Option,
  none, some, List, [], ◌∷◌, ◌++◌, map, reverse, append-nil, append_assoc, arith,
}
use libc_jss.UrlParser.Text.{
  is_alpha, to_lower, is_scheme_char, all, upto, onward, starts, has_userpass, bracketed,
  behind_bracket, stop_user, stop_host, host_text, host_rest, stop_path,
}

pub record Url : Type 0 where
  pub scheme : Option Bytes
  pub host : Option Bytes
  pub port : Option Bytes
  pub path : Option Bytes
  pub query : Option Bytes
  pub fragment : Option Bytes
  pub username : Option Bytes
  pub password : Option Bytes

pub record Heap : Type 0 where
  pub calls : ℕ
  pub live : ℕ

pub record Parser : Type 0 where
  pub url : Url
  pub cur : Bytes
  pub heap : Heap

-- `null` is the return of `NULL`, with the heap at that point.
pub data Result : Type 0 where
  ok : Parser → Result
  null : Heap → Result

infixl 5 ◌>>=◌
abbrev pub ◌>>=◌ : Result → (Parser → Result) → Result
ok s >>= f = f s
null h >>= f = null h

abbrev pub free : Heap → Heap
free h = record h { live = h.live - 1 }

-- `if ( NULL != p ) { free(p); }`
abbrev pub free_field : Option Bytes → Heap → Heap
free_field none h = h
free_field (some text) h = free h

free_fields : Url → Heap → Heap
free_fields u h =
    let a = free_field u.host (free_field u.scheme h) in
    let b = free_field u.path (free_field u.port a) in
    let c = free_field u.fragment (free_field u.query b) in
    free_field u.password (free_field u.username c)

pub parsed_url_free : Option Url → Heap → Heap
unfolding free_fields
parsed_url_free none h = h
parsed_url_free (some u) h = free (free_fields u h)

-- `parsed_url_free(purl); return NULL;`
abbrev fail : Parser → Result
fail s = null (parsed_url_free (some s.url) s.heap)

abbrev pub no_fields : Url
no_fields = record {
  scheme = none;
  host = none;
  port = none;
  path = none;
  query = none;
  fragment = none;
  username = none;
  password = none;
}

abbrev returned : Result → Option Url × Heap
returned (ok s) = (some s.url, s.heap)
returned (null h) = (none, h)

pub skip_slash : Parser → Result
skip_slash s = if starts b'/' s.cur then ok (record s { cur = drop 1 s.cur }) else fail s

pub skip_at : Parser → Result
skip_at s = if starts b'@' s.cur then ok (record s { cur = drop 1 s.cur }) else fail s

-- `NULL == purl->host || len <= 0`
pub check_host : ℕ → Parser → Result
check_host len s = if len == 0 then fail s else ok s

module _ (grants : ℕ → Bool) where
  unfoldable pub malloc : Heap → Bool × Heap
  malloc h =
      let granted = grants h.calls in
      (granted, record { calls = h.calls + 1; live = if granted then h.live + 1 else h.live })

  -- Copies a field to a new block: `fill` stores the pointer, and the parser goes on at `rest`.
  pub store : (Bytes → Url) → Bytes → Bytes → Parser → Result
  unfolding malloc
  store fill text rest s =
      let (granted, heap) = malloc s.heap in
      if granted
      then ok (record { url = fill text; cur = rest; heap = heap })
      else fail (record s { heap = heap })

  pub read_scheme : Parser → Result
  unfolding store is_scheme_char
  read_scheme s =
      let name = upto (λ c. c == b':') s.cur in
      let rest = onward (λ c. c == b':') s.cur in
      if not (starts b':' rest)
      then fail s
      else if not (all is_scheme_char name)
      then fail s
      else store (λ t. record s.url { scheme = some (map to_lower t) }) name (drop 1 rest) s

  pub read_username : Parser → Result
  unfolding store
  read_username s =
      store (λ t. record s.url { username = some t }) (upto stop_user s.cur)
        (onward stop_user s.cur) s

  pub read_password : Parser → Result
  unfolding store
  read_password s =
      let text = drop 1 s.cur in
      if starts b':' s.cur
      then store (λ t. record s.url { password = some t }) (upto (λ c. c == b'@') text)
          (onward (λ c. c == b'@') text) s
      else ok s

  pub read_userpass : Parser → Result
  unfolding read_username read_password skip_at has_userpass
  read_userpass s =
      if has_userpass s.cur then (do s ← read_username s; s ← read_password s; skip_at s) else ok s

  pub read_host : Parser → Result
  unfolding store check_host bracketed behind_bracket
  read_host s = do
    s' ← store (λ t. record s.url { host = some t }) (host_text s.cur) (host_rest s.cur) s
    check_host (length (host_text s.cur)) s'

  pub read_port : Parser → Result
  unfolding store
  read_port s =
      let text = drop 1 s.cur in
      if starts b':' s.cur
      then store (λ t. record s.url { port = some t }) (upto (λ c. c == b'/') text)
          (onward (λ c. c == b'/') text) s
      else ok s

  pub read_path : Parser → Result
  unfolding store
  read_path s =
      let text = drop 1 s.cur in
      if starts b'/' s.cur
      then store (λ t. record s.url { path = some t }) (upto stop_path text) (onward stop_path text)
          s
      else fail s

  pub read_query : Parser → Result
  unfolding store
  read_query s =
      let text = drop 1 s.cur in
      if starts b'?' s.cur
      then store (λ t. record s.url { query = some t }) (upto (λ c. c == b'#') text)
          (onward (λ c. c == b'#') text) s
      else ok s

  pub read_fragment : Parser → Result
  unfolding store
  read_fragment s =
      if starts b'#' s.cur
      then store (λ t. record s.url { fragment = some t }) (drop 1 s.cur) [] s
      else ok s

  -- From the first `'/'` behind the host on, if the text goes on.
  pub read_rest : Parser → Result
  unfolding read_path read_query read_fragment
  read_rest s =
      if length s.cur == 0 then ok s else (do s ← read_path s; s ← read_query s; read_fragment s)

  pub read_url : Parser → Result
  unfolding read_scheme skip_slash read_userpass read_host read_port read_rest
  read_url s = do
    s ← read_scheme s
    s ← skip_slash s
    s ← skip_slash s
    s ← read_userpass s
    s ← read_host s
    s ← read_port s
    read_rest s

  -- The pointer that is returned, and the heap then.
  unfoldable pub parse_url : Bytes → Heap → Option Url × Heap
  unfolding malloc read_url
  parse_url url h =
      let (granted, heap) = malloc h in
      if granted
      then returned (read_url (record { url = no_fields; cur = url; heap = heap }))
      else (none, heap)
