-- ===== src/Htclient.antt =====
-- htclient/htclient.c: a blocking HTTP client. The header buffer is the response's text; `skip`
-- ends each word with zeros in place of the delimiters, so that the words are parts of the text.
-- `malloc` and `strdup` answer by the oracle of the URL parser.
pub mod Headers
pub mod Parsed
pub mod Lost
pub mod Received
pub mod Blocks
pub mod Ready
pub mod Written
mod Examples
use libc_jss.Base.{
  ltb, leb, ◌==◌, if◌then◌else◌, if_true, if_false, ltb→lt, lt→ltb, le_of_not_ltb, leb→le, ==_iff,
  ==_refl, Bool-cases, Option-cases, length, get_or, set, take, drop, replicate, reverse_onto,
  take_while, drop_while, keep_if, length-append, length-set, length-take, length-drop,
  length-replicate, take-append-drop, take_all, take_while-append-drop_while, length-drop_while-le,
  length-keep_if-le, get_or-append, set-append, nil_of_length, length_snoc, get_or-drop, drop_next,
  get_or_behind, take-append_left, take_middle, Bytes, length-append_bytes, length-take_bytes,
  length-drop_bytes, length-replicate_bytes, codes, cstr, strlen, IsText, contains, starts_with,
  str_eq, cstr_text, strlen_text, cstr-IsText, cstr_idem, append-IsText, take-IsText, strncpy,
  cstr_front, get_or-strncpy, lengths, decimal, decimal_injective, length-decimal-le, ℤ, pos,
  negsuc, ℕ, zero, suc, ◌+◌, ◌-◌, ◌*◌, ◌/◌, ◌%◌, ◌^◌, ◌≤◌, ◌<◌, min, ◌≡◌, refl, sym, ap, ap₂, subst,
  subst₂, ◌∙◌, ◌≡⟨◌⟩◌, ◌∎, ◌≢◌, ◌↔◌, ◌⊎◌, inl, inr, Bool, true, false, not, ◌&&◌, ◌||◌, Option,
  none, some, List, [], ◌∷◌, ◌++◌, map, reverse, append-nil, append_assoc, arith,
}
use libc_jss.UrlParser.{Url, Heap, no_fields, malloc, parse_url, free, free_field}

abbrev pub Entries : Type 0
Entries = List (Option Bytes × Option Bytes)

-- `null_read` is not in the source: it holds once `strcspn` was called with `NULL`, from where on the
-- program's behaviour is undefined, and what the model does then means nothing.
pub record Htclient : Type 0 where
  pub url : Url
  pub full : Bytes
  pub url_set : Bool
  pub request_data : Bytes
  pub response_data : Bytes
  pub headers : Entries
  pub num_headers : ℕ
  pub header_buf : Option Bytes
  pub error : Bytes
  pub null_read : Bool

-- `strcspn` and `strspn`: the word before the first delimiter, and the text behind the delimiters.
abbrev pub word : Bytes → Bytes → Bytes
word buf delimiters = take_while (λ c. not (contains delimiters c)) buf

abbrev pub behind : Bytes → Bytes → Bytes
behind buf delimiters =
    drop_while (λ c. contains delimiters c) (drop_while (λ c. not (contains delimiters c)) buf)

-- `skip`
abbrev pub skip : Bytes → Bytes → Bytes × Bytes
skip buf delimiters = (word buf delimiters, behind buf delimiters)

abbrev pub name_end : Bytes
name_end = b':' ∷ 32 ∷ []

abbrev pub line_end : Bytes
line_end = b'\r' ∷ b'\n' ∷ []

-- The loop of `parse_http_headers` from `i` on, with the rounds left.
unfoldable pub parse_loop : ℕ → Bytes → ℕ → Entries → ℕ → Entries × ℕ
parse_loop zero buf i headers num = (headers, num)
parse_loop (suc left) buf i headers num =
    let (name, buf') = skip buf name_end in
    let (value, rest) = skip buf' line_end in
    let stored = set headers i (some name, some value) in
    let later = parse_loop left rest (suc i) stored (suc i) in
    if length name == 0 then (stored, num) else later

unfoldable pub parse_http_headers : Bytes → Htclient → Htclient
unfolding parse_loop
parse_http_headers buf t =
    let (headers, num) = parse_loop 16 buf 0 t.headers t.num_headers in
    record t { headers = headers; num_headers = num }

-- The loop of `htclient_header_get` over the entries that count.
unfoldable pub find_header : Entries → Bytes → Option Bytes
find_header [] name = none
find_header ((none, value) ∷ headers) name = find_header headers name
find_header ((some n, none) ∷ headers) name = find_header headers name
find_header ((some n, some value) ∷ headers) name =
    let later = find_header headers name in if str_eq n name then some value else later

unfoldable pub htclient_header_get : Htclient → Bytes → Option Bytes
unfolding find_header
htclient_header_get t name = find_header (take t.num_headers t.headers) name

abbrev pub htclient_new : Htclient
htclient_new = record {
  url = no_fields;
  full = [];
  url_set = false;
  request_data = [];
  response_data = [];
  headers = replicate 16 (none, none);
  num_headers = 0;
  header_buf = none;
  error = [];
  null_read = false;
}

abbrev pub htclient_request_set : Bytes → Htclient → Htclient
htclient_request_set formatted t = record t { request_data = take 1023 formatted }

abbrev pub htclient_error : Htclient → Option Bytes
htclient_error t = if length t.error == 0 then none else some t.error

-- `ERR`
abbrev pub fail : Bytes → Htclient → Htclient × Bool
fail message t = (record t { error = take 127 message }, false)

-- `!htc->url.host || !htc->url.port`
abbrev pub lacks : Option Bytes → Option Bytes → Bool
lacks none port = true
lacks (some host) none = true
lacks (some host) (some port) = false

-- The answers of the system to `socket`, `gethostbyname`, `connect`, `write` and `read`; an error
-- stands as the message that `ERR` formats.
pub record Peer : Type 0 where
  pub socket_error : Option Bytes
  pub host_found : Bool
  pub connect_error : Option Bytes
  pub write_failed : Bool
  pub answer : Option Bytes

-- The descriptors that are open.
abbrev pub close : ℕ → ℕ
close fds = fds - 1

-- `parse_http_headers` on the copy of the response, `NULL` included, which it does not look at
abbrev pub parse_copy : Option Bytes → Htclient → Htclient
parse_copy none t = record t { null_read = true }
parse_copy (some buf) t = parse_http_headers buf t

module _ (grants : ℕ → Bool) where
  abbrev pub strdup : Bytes → Heap → Option Bytes × Heap
  strdup s h = let (granted, h') = malloc grants h in (if granted then some s else none, h')

  -- The port of the URL, or the scheme's own.
  unfoldable pub default_port : Url → Heap → Option Bytes × Heap
  default_port u h = elim u.port [
    | some port ↦ (some port, h)
    | none ↦ elim u.scheme [
      | none ↦ (none, h)
      | some scheme ↦
          if str_eq scheme (codes "http")
          then strdup (codes "80") h
          else if str_eq scheme (codes "https")
          then strdup (codes "443") h
          else (none, h)
    ]
  ]

  unfoldable pub accept_url : Url → Heap → Htclient → (Htclient × Bool) × Heap
  unfolding default_port
  accept_url u h t =
      let (port, h') = default_port u h in
      let t' = record t { url = record u { port = port } } in
      if lacks u.host port
      then (fail (codes "URL mismatch") (record t' { url_set = false }), h')
      else ((record t' { url_set = true }, true), h')

  -- What becomes of the parser's result.
  unfoldable pub take_url : Option Url → Heap → Htclient → (Htclient × Bool) × Heap
  unfolding accept_url
  take_url none h t = (fail (codes "URL mismatch") (record t { url_set = false }), h)
  take_url (some u) h t = accept_url u h t

  -- The text is what the format gives. The second value holds where 0 is returned.
  unfoldable pub htclient_url : Bytes → Heap → Htclient → (Htclient × Bool) × Heap
  unfolding take_url
  htclient_url formatted h t =
      let t' = record t { full = take 1023 formatted } in
      let (parsed, h') = parse_url grants t'.full h in take_url parsed h' t'

  abbrev pub receive : Option Bytes → Htclient → Heap → (Htclient × Bool) × Heap
  receive none t h = (fail (codes "ERROR reading from socket") (record t { response_data = [] }), h)
  receive (some bytes) t h =
      let response = cstr (take 1023 bytes) in
      let (copy, h') = strdup response h in
      let t' = record t { response_data = response; header_buf = copy } in
      ((parse_copy copy t', true), h')

  -- From `socket` on.
  unfoldable pub exchange : Peer → ℕ → Htclient → Heap → (Htclient × Bool) × ℕ × Heap
  exchange peer fds t h =
      if not peer.host_found
      then (fail (codes "host not found: " ++ text_of t.url.host) t, close fds, h)
      else elim peer.connect_error [
        | some e ↦ (fail e t, close fds, h)
        | none ↦
            if peer.write_failed
            then (fail (codes "ERROR writing to socket") t, close fds, h)
            else (let r = receive peer.answer t h in (r.0, close fds, r.1))
      ]
    where
      text_of : Option Bytes → Bytes
      text_of none = []
      text_of (some host) = host

  -- The second value holds where 0 is returned, and the third counts the open descriptors.
  unfoldable pub htclient_perform : Peer → ℕ → Htclient → Heap → (Htclient × Bool) × ℕ × Heap
  unfolding exchange
  htclient_perform peer fds t h =
      if not t.url_set
      then (fail (codes "URL not set or bogus") t, fds, h)
      else elim peer.socket_error [
        | some e ↦ (fail e t, fds, h)
        | none ↦ exchange peer (fds + 1) t h
      ]

-- `htclient_destroy`: the header buffer and the object are freed, and nothing else.
abbrev pub htclient_destroy : Htclient → Heap → Heap
htclient_destroy t h = free (free_field t.header_buf h)
