-- ===== src/Htclient/Ready.antt =====
-- When a client may be used, and what a request leaves open.
use libc_jss.Base.{
  Bool-cases, Option-cases, take, Bytes, cstr, ℕ, ◌+◌, ◌-◌, ◌≡◌, refl, sym, subst, inl, inr, Bool,
  true, false, Option, none, some, arith,
}
use libc_jss.UrlParser.{Url, Heap, parse_url}
use libc_jss.Htclient.{
  Htclient, parse_http_headers, default_port, lacks, accept_url, take_url, htclient_url, Peer,
  strdup, parse_copy, receive, exchange, htclient_perform,
}

-- A URL that is marked as set has a host and a port.
abbrev pub IsReady : Htclient → Type 0
IsReady t = t.url_set ≡ true → lacks t.url.host t.url.port ≡ false

module _ (grants : ℕ → Bool) where
  accept_url-IsReady :
      (u : Url) (h : Heap) (t : Htclient)
      → let r = (accept_url grants u h t).0 in (r.1 ≡ r.0.url_set) × IsReady r.0
  unfolding accept_url
  accept_url-IsReady u h t = elim (Bool-cases (lacks u.host (default_port grants u h).0)) [
    | inl e ↦ rw e (refl, λ k. absurd (ground (arith, k)))
    | inr e ↦ rw e (refl, λ k. e)
  ]

  take_url-IsReady :
      (parsed : Option Url) (h : Heap) (t : Htclient)
      → let r = (take_url grants parsed h t).0 in (r.1 ≡ r.0.url_set) × IsReady r.0
  unfolding take_url
  take_url-IsReady none h t = (refl, λ k. absurd (ground (arith, k)))
  take_url-IsReady (some u) h t = accept_url-IsReady u h t

-- `htclient_url` returns 0 exactly when it marks the URL as set, and then the URL has a host and a
-- port, from the text or from its scheme; so `htclient_perform`, which reads both, never reads a
-- `NULL` there.
pub htclient_url-IsReady :
    (grants : ℕ → Bool) (formatted : Bytes) (h : Heap) (t : Htclient)
    → let r = (htclient_url grants formatted h t).0 in (r.1 ≡ r.0.url_set) × IsReady r.0
unfolding htclient_url
htclient_url-IsReady grants formatted h t =
    let t' = record t { full = take 1023 formatted } in
    let r = parse_url grants (take 1023 formatted) h in take_url-IsReady grants r.0 r.1 t'

parse_http_headers_keeps :
    (buf : Bytes) (t : Htclient)
    → ((parse_http_headers buf t).url ≡ t.url) × ((parse_http_headers buf t).url_set ≡ t.url_set)
unfolding parse_http_headers
parse_http_headers_keeps buf t = (refl, refl)

-- The URL of a client, and whether it is set, stay.
abbrev Keeps : Htclient → Htclient → Type 0
Keeps t t' = (t'.url ≡ t.url) × (t'.url_set ≡ t.url_set)

parse_copy-Keeps : (copy : Option Bytes) (t : Htclient) → Keeps t (parse_copy copy t)
parse_copy-Keeps none t = (refl, refl)
parse_copy-Keeps (some buf) t = parse_http_headers_keeps buf t

module _ (grants : ℕ → Bool) where
  receive-Keeps :
      (answer : Option Bytes) (t : Htclient) (h : Heap) → Keeps t (receive grants answer t h).0.0
  receive-Keeps none t h = (refl, refl)
  receive-Keeps (some bytes) t h =
      let (copy, h') = strdup grants (cstr (take 1023 bytes)) h in
      parse_copy-Keeps copy (record t { response_data = cstr (take 1023 bytes); header_buf = copy })

  exchange-Keeps :
      (peer : Peer) (fds : ℕ) (t : Htclient) (h : Heap)
      → Keeps t (exchange grants peer (fds + 1) t h).0.0
        × ((exchange grants peer (fds + 1) t h).1 ≡ fds)
  unfolding exchange
  exchange-Keeps peer fds t h =
      let back : fds + 1 - 1 ≡ fds = omega arith in
      elim (Bool-cases peer.host_found) [
        | inr e ↦ rw e ((refl, refl), back)
        | inl e ↦ elim (Option-cases peer.connect_error) [
          | inr (m, k) ↦ rw (e, k) ((refl, refl), back)
          | inl k ↦ elim (Bool-cases peer.write_failed) [
            | inl w ↦ rw (e, k, w) ((refl, refl), back)
            | inr w ↦ rw (e, k, w) (receive-Keeps peer.answer t h, back)
          ]
        ]
      ]

  pub htclient_perform_opened :
      (peer : Peer) (fds : ℕ) (t : Htclient) (h : Heap)
      → t.url_set ≡ true
      → peer.socket_error ≡ none
      → htclient_perform grants peer fds t h ≡ exchange grants peer (fds + 1) t h
  unfolding htclient_perform
  htclient_perform_opened peer fds t h e k = simp (e, k) refl

abbrev Kept : ℕ → Htclient → (Htclient × Bool) × ℕ × Heap → Type 0
Kept fds t r = (r.1 ≡ fds) × (r.0.0.url ≡ t.url) × (r.0.0.url_set ≡ t.url_set)

-- However a request ends, `htclient_perform` closes the socket that it opens, and leaves the URL
-- and its mark as they were.
pub htclient_perform_lem :
    (grants : ℕ → Bool) (peer : Peer) (fds : ℕ) (t : Htclient) (h : Heap)
    → let r = htclient_perform grants peer fds t h in
      (r.1 ≡ fds) × (r.0.0.url ≡ t.url) × (r.0.0.url_set ≡ t.url_set)
unfolding htclient_perform
htclient_perform_lem grants peer fds t h = elim (Bool-cases t.url_set) [
  | inr e ↦ rw e (refl, refl, refl)
  | inl e ↦ elim (Option-cases peer.socket_error) [
    | inr (m, k) ↦ rw (e, k) (refl, refl, e)
    | inl k ↦
        let kept = exchange-Keeps grants peer fds t h in
        subst (Kept fds t) (sym (htclient_perform_opened grants peer fds t h e k))
          (kept.1, kept.0.0, kept.0.1)
  ]
]
