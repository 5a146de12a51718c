-- ===== src/Programs/Fetching.antt =====
-- htclient/test_htclient.c: a program that sets a URL, makes a request, and prints two headers of
-- the response. What `htclient_dump` prints is left out.
pub mod Setup
pub mod Left
pub mod Ends
pub mod Headers
use libc_jss.Base.{
  ltb, leb, ◌==◌, if◌then◌else◌, if_true, if_false, ltb→lt, lt→ltb, le_of_not_ltb, leb→le, ==_iff,
  ==_refl, Bool-cases, Option-cases, length, get_or, set, take, drop, replicate, reverse_onto,
  take_while, drop_while, keep_if, length-append, length-set, length-take, length-drop,
  length-replicate, take-append-drop, take_all, take_while-append-drop_while, length-drop_while-le,
  length-keep_if-le, get_or-append, set-append, nil_of_length, length_snoc, get_or-drop, drop_next,
  get_or_behind, take-append_left, take_middle, Bytes, length-append_bytes, length-take_bytes,
  length-drop_bytes, length-replicate_bytes, codes, cstr, strlen, IsText, contains, starts_with,
  str_eq, cstr_text, strlen_text, cstr-IsText, cstr_idem, append-IsText, take-IsText, strncpy,
  cstr_front, get_or-strncpy, lengths, decimal, decimal_injective, length-decimal-le, ℤ, pos,
  negsuc, ℕ, zero, suc, ◌+◌, ◌-◌, ◌*◌, ◌/◌, ◌%◌, ◌^◌, ◌≤◌, ◌<◌, min, ◌≡◌, refl, sym, ap, ap₂, subst,
  subst₂, ◌∙◌, ◌≡⟨◌⟩◌, ◌∎, ◌≢◌, ◌↔◌, ◌⊎◌, inl, inr, Bool, true, false, not, ◌&&◌, ◌||◌, Option,
  none, some, List, [], ◌∷◌, ◌++◌, map, reverse, append-nil, append_assoc, arith,
}
use libc_jss.UrlParser.{Heap, malloc}
use libc_jss.Htclient.{
  Htclient, line_end, htclient_header_get, htclient_new, htclient_request_set, htclient_error,
  htclient_url, Peer, exchange, receive, parse_http_headers, htclient_perform, htclient_destroy,
}

pub data Printed : Type 0 where
  no_memory : Printed
  error : Bytes → Printed
  headers : Option Bytes → Option Bytes → Printed

-- How the program ends: what `main` returns, what is printed, the open descriptors and the heap.
pub record Ended : Type 0 where
  pub status : ℤ
  pub printed : Printed
  pub fds : ℕ
  pub heap : Heap

abbrev pub request : Bytes
request =
    codes "GET /auth"
    ++ (line_end
        ++ (codes "Auth-server: akarmi"
            ++ (line_end ++ (codes "Auth-port: 5555" ++ (line_end ++ line_end)))))

-- Behind `htclient_perform`.
abbrev pub report : Htclient → ℕ → Heap → Ended
report t fds h = elim (htclient_error t) [
  | some e ↦ record { status = negsuc 0; printed = error e; fds = fds; heap = htclient_destroy t h }
  | none ↦ record {
    status = pos 0;
    printed =
        headers (htclient_header_get t (codes "Auth-server"))
          (htclient_header_get t (codes "Content-Length"));
    fds = fds;
    heap = htclient_destroy t h;
  }
]

module _ (grants : ℕ → Bool) where
  -- With a new client.
  pub use_client : Peer → ℕ → Heap → Ended
  use_client peer fds h =
      let (r, h') =
        htclient_url grants (codes "http://10.42.20.14:3000/dovecheck") h htclient_new in
      let t = htclient_request_set request r.0 in
      let (p, fds', h'') = htclient_perform grants peer fds t h' in report p.0 fds' h''

  unfoldable pub main : Peer → ℕ → Heap → Ended
  unfolding use_client
  main peer fds h =
      let (granted, h') = malloc grants h in
      if granted
      then use_client peer fds h'
      else record { status = negsuc 0; printed = no_memory; fds = fds; heap = h' }

-- Whether the system grants all that a request needs.
abbrev pub serves : Peer → Bool
serves peer = elim peer.socket_error [
  | some _ ↦ false
  | none ↦ if not peer.host_found then false else elim peer.connect_error [
    | some _ ↦ false
    | none ↦ if peer.write_failed then false else elim peer.answer [ some _ ↦ true | none ↦ false ]
  ]
]

abbrev pub IsMessage : Option Bytes → Type 0
IsMessage none = Unit
IsMessage (some m) = 1 ≤ length m

abbrev pub AreMessages : Peer → Type 0
AreMessages peer = IsMessage peer.socket_error × IsMessage peer.connect_error
