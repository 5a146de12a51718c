-- ===== src/Htclient/Examples.antt =====
-- A response with headers, and a URL with no port.
use libc_jss.Base.{
  not, ◌==◌, Bytes, codes, ℕ, ◌+◌, ◌≡◌, refl, ◌⊎◌, inl, Bool, true, false, none, some, List, [],
  ◌∷◌, ◌++◌, arith,
}
use libc_jss.UrlParser.{Heap, parse_url}
use libc_jss.Htclient.{
  Htclient, line_end, parse_http_headers, htclient_header_get, htclient_new, htclient_url, Peer,
  htclient_perform, htclient_destroy,
}
use libc_jss.Htclient.Headers.{Headers, render, AreHeaders}
use libc_jss.Htclient.Parsed.{render_onto, parse_http_headers-body, htclient_header_get_lem}
use libc_jss.UrlParser.Parts.{Parts, url_of, AreClean}
use libc_jss.Htclient.Written.{htclient_url-render}
use libc_jss.Htclient.Blocks.{
  Request, request_url, request_perform, Refuses, session, spilt, htclient_destroy_leaves,
}
use libc_jss.Htclient.Lost.{lost}
use libc_jss.Htclient.Ready.{IsReady, htclient_url-IsReady}

abbrev two_headers : Headers
two_headers =
    (codes "HTTP/1.1", codes " ", codes "200 OK") ∷ (codes "Server", codes ": ", codes "x: y") ∷ []

two_headers-AreHeaders : AreHeaders two_headers
two_headers-AreHeaders = ground arith

abbrev response : Bytes
response = render two_headers

htclient_header_get_lem_example :
    htclient_header_get (parse_http_headers response htclient_new) (codes "Server")
    ≡ some (codes "x: y")
htclient_header_get_lem_example =
    htclient_header_get_lem two_headers (codes "Server") two_headers-AreHeaders (omega arith)

parse_http_headers-body_example :
    parse_http_headers (render_onto two_headers (b'\r' ∷ b'\n' ∷ codes "secret: 1")) htclient_new
    ≡ parse_http_headers (render_onto two_headers (codes "secret: 1")) htclient_new
parse_http_headers-body_example =
    parse_http_headers-body (codes "HTTP/1.1", codes " ", codes "200 OK")
      ((codes "Server", codes ": ", codes "x: y") ∷ []) (codes "secret: 1") htclient_new
      two_headers-AreHeaders

-- The blank line is skipped with the end of the line before it, and the body is read as a header.
body_as_header :
    htclient_header_get
      (parse_http_headers (response ++ line_end ++ codes "secret: 1") htclient_new)
      (codes "secret")
    ≡ some (codes "1")
unfolding htclient_header_get parse_http_headers
body_as_header = refl

abbrev granting : ℕ → Bool
granting n = true

abbrev empty_heap : Heap
empty_heap = record { calls = 0; live = 1 }

abbrev set_up : (Htclient × Bool) × Heap
set_up = htclient_url granting (codes "http://jss.hu/a") empty_heap htclient_new

-- The URL's blocks and the port's copy stay when the client is destroyed.
blocks_left : (htclient_destroy set_up.0.0 set_up.1).live ≡ 5
unfolding htclient_url parse_url
blocks_left = refl

set_up-port : set_up.0.0.url.port ≡ some (codes "80")
unfolding htclient_url parse_url
set_up-port = refl

htclient_url-IsReady_example : (set_up.0.1 ≡ set_up.0.0.url_set) × IsReady set_up.0.0
htclient_url-IsReady_example =
    htclient_url-IsReady granting (codes "http://jss.hu/a") empty_heap htclient_new

abbrev peer : Peer
peer = record {
  socket_error = none;
  host_found = true;
  connect_error = none;
  write_failed = false;
  answer = some response;
}

-- A URL with a default port, and two responses.
abbrev requests : List Request
requests = request_url (codes "http://jss.hu/a") ∷ request_perform peer ∷ request_perform peer ∷ []

requests_spill : spilt granting requests htclient_new 3 empty_heap ≡ 6
unfolding session spilt htclient_url parse_url htclient_perform lost parse_http_headers
requests_spill = refl

-- The copy of the response is refused, the sixth block that is asked for.
reads_null :
    (session
      (λ n. not (n == 5))
      (request_url (codes "http://jss.hu/a") ∷ request_perform peer ∷ [])
      htclient_new
      3
      empty_heap).0.null_read
    ≡ true
unfolding session htclient_url parse_url htclient_perform
reads_null = refl

htclient_destroy_leaves_example :
    let r = session granting requests htclient_new 3 empty_heap in
    ((r.0.null_read ≡ true) × Refuses granting)
    ⊎ ((r.0.null_read ≡ false)
        × (r.1 ≡ 3)
        × ((htclient_destroy r.0 r.2).live + 1
            ≡ empty_heap.live + spilt granting requests htclient_new 3 empty_heap))
htclient_destroy_leaves_example =
    htclient_destroy_leaves granting requests 3 empty_heap (omega arith)

abbrev parts : Parts
parts = record {
  scheme = codes "https";
  user = none;
  host = codes "jss.hu";
  port = none;
  tail = some (record { path = codes "a"; query = some (codes "b"); fragment = none });
}

parts-AreClean : AreClean parts
unfolding libc_jss.UrlParser.Text.is_scheme_char
parts-AreClean = record {
  scheme = (refl, refl);
  name = tt;
  password = tt;
  host = ((omega arith, inl (refl, refl)), refl);
  port = tt;
  path = refl;
  query = refl;
}

htclient_url-render_example :
    (htclient_url granting (codes "https://jss.hu/a?b") empty_heap htclient_new).0 ≡ (
      record htclient_new {
        full = codes "https://jss.hu/a?b";
        url = record (url_of parts) { port = some (codes "443") };
        url_set = true;
      },
      true,
    )
htclient_url-render_example =
    htclient_url-render granting parts (codes "443") empty_heap htclient_new (λ n. refl)
      parts-AreClean (omega arith) refl
