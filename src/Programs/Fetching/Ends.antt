-- ===== src/Programs/Fetching/Ends.antt =====
-- How the program ends.
use libc_jss.Base.{
  ◌==◌, if◌then◌else◌, if_true, Bool-cases, Option-cases, length, set, cstr, List, ◌<◌, take, Bytes,
  codes, pos, negsuc, ℕ, ◌+◌, ◌≤◌, ◌≡◌, refl, ap, ◌∙◌, inl, inr, Bool, true, false, Option, none,
  some, [], ◌∷◌, ◌++◌, arith,
}
use libc_jss.UrlParser.{Heap, malloc}
use libc_jss.Htclient.{
  strdup, parse_copy, htclient_destroy, Htclient, htclient_new, Peer, exchange, receive,
  parse_http_headers, htclient_perform,
}
use libc_jss.Htclient.Ready.{htclient_perform_opened}
use libc_jss.Htclient.Blocks.{Request, spilt, session, htclient_destroy_leaves}
use libc_jss.Programs.Fetching.{Ended, report, main, serves, AreMessages}
use libc_jss.Programs.Fetching.Setup.{ready, set_heap, main-ready}
use libc_jss.Programs.Fetching.Left.{requests, report-ends, requests_spill, main-session}

-- The status that the program ends with behind a request.
abbrev Ends : Bool → Htclient → Type 0
Ends b t = (fds : ℕ) (h : Heap) → (report t fds h).status ≡ (if b then pos 0 else negsuc 0)

error-Ends :
    (m : Bytes) (t : Htclient) → 1 ≤ length m → Ends false (record t { error = take 127 m })
error-Ends [] t k fds h = absurd (omega (arith, k))
error-Ends (c ∷ m) t k fds h =
    let e : (length (take 127 (c ∷ m)) == 0) ≡ false = ground arith in rw (e, report) refl

fine-Ends : (t : Htclient) → t.error ≡ [] → Ends true t
fine-Ends t e fds h = rw e refl

parse_copy-error : (copy : Option Bytes) (t : Htclient) → (parse_copy copy t).error ≡ t.error
unfolding parse_http_headers
parse_copy-error none t = refl
parse_copy-error (some buf) t = refl

module _ (grants : ℕ → Bool) where
  receive-Ends :
      (answer : Option Bytes) (t : Htclient) (h : Heap)
      → t.error ≡ []
      → Ends (elim answer [ some _ ↦ true | none ↦ false ]) (receive grants answer t h).0.0
  receive-Ends none t h e = λ fds h. refl
  receive-Ends (some bytes) t h e =
      let (copy, h') = strdup grants (cstr (take 1023 bytes)) h in
      let t' = record t { response_data = cstr (take 1023 bytes); header_buf = copy } in
      fine-Ends _ (parse_copy-error copy t' ∙ e)

  exchange-Ends :
      (peer : Peer) (fds : ℕ) (t : Htclient) (h : Heap)
      → AreMessages peer
      → t.error ≡ []
      → peer.socket_error ≡ none
      → Ends (serves peer) (exchange grants peer fds t h).0.0
  unfolding exchange
  exchange-Ends peer fds t h (_, said) e s = elim (Bool-cases peer.host_found) [
    | inr f ↦
        rw (s, f)
          (error-Ends (codes "host not found: " ++ elim t.url.host [ none ↦ [] | some host ↦ host ])
            t (omega arith))
    | inl f ↦ elim (Option-cases peer.connect_error) [
      | inr (m, k) ↦ rw (s, f, k) (error-Ends m t (rw k at said))
      | inl k ↦ elim (Bool-cases peer.write_failed) [
        | inl w ↦ rw (s, f, k, w) (error-Ends (codes "ERROR writing to socket") t (omega arith))
        | inr w ↦ rw (s, f, k, w) (receive-Ends peer.answer t h e)
      ]
    ]
  ]

  htclient_perform-Ends :
      (peer : Peer) (fds : ℕ) (t : Htclient) (h : Heap)
      → AreMessages peer
      → t.error ≡ []
      → t.url_set ≡ true
      → Ends (serves peer) (htclient_perform grants peer fds t h).0.0
  unfolding htclient_perform
  htclient_perform-Ends peer fds t h said e set = elim (Option-cases peer.socket_error) [
    | inr (m, k) ↦ rw (set, k) (error-Ends m t (rw k at said.0))
    | inl k ↦
        rw (htclient_perform_opened grants peer fds t h set k)
          (exchange-Ends peer (fds + 1) t h said e k)
  ]

-- The descriptors and the blocks behind requests for which `malloc` grants every block.
settles :
    (grants : ℕ → Bool) (asked : List Request) (fds : ℕ) (h : Heap)
    → ((n : ℕ) → grants n ≡ true)
    → 0 < h.live
    → let r = session grants asked htclient_new fds h in
      (r.1 ≡ fds)
      × ((htclient_destroy r.0 r.2).live + 1 ≡ h.live + spilt grants asked htclient_new fds h)
settles grants asked fds h granted k = elim (htclient_destroy_leaves grants asked fds h k) [
  | inl (_, (n, refused)) ↦ absurd (ground (arith, granted n, refused))
  | inr (_, closed, left) ↦ (closed, left)
]

-- If `malloc` grants every block and no message of the system is empty: whatever the system
-- answers, the program returns 0 exactly when the system serves the whole request, and -1 else; it
-- leaves no descriptor open, and five blocks that nothing frees: the URL that was parsed, and its
-- scheme, host, port and path.
pub main-ends :
    (grants : ℕ → Bool) (peer : Peer) (fds : ℕ) (h : Heap)
    → ((n : ℕ) → grants n ≡ true)
    → AreMessages peer
    → let r = main grants peer fds h in
      (r.status ≡ (if serves peer then pos 0 else negsuc 0))
      × (r.fds ≡ fds)
      × (r.heap.live ≡ h.live + 5)
unfolding malloc
main-ends grants peer fds h granted said =
    let h' = (malloc grants h).1 in
    let e = main-session grants granted peer fds h in
    let r = session grants (requests grants granted peer) htclient_new fds h' in
    let one : h'.live ≡ h.live + 1 =
      if_true (grants h.calls) (h.live + 1) h.live (granted h.calls) in
    let (closed, left) =
      settles grants (requests grants granted peer) fds h' granted (omega (arith, one)) in
    let (same, heap) = report-ends grants granted r.0 r.1 r.2 in
    (
      ap (λ (x : Ended). x.status) (main-ready grants granted peer fds h)
          ∙ htclient_perform-Ends grants peer fds (ready grants granted) (set_heap grants granted h)
              said refl refl _ _,
      ap (λ (x : Ended). x.fds) e ∙ same ∙ closed,
      omega (
        arith,
        ap (λ (x : Ended). x.heap.live) e,
        ap (λ (x : Heap). x.live) heap,
        left,
        one,
        requests_spill grants granted peer fds h',
      ),
    )
