-- ===== src/Htclient/Blocks.antt =====
-- The blocks that a client loses.
use libc_jss.Base.{
  if◌then◌else◌, if_true, if_false, Bool-cases, take, Bytes, ℕ, ◌+◌, ◌<◌, ◌≡◌, refl, ap, ◌∙◌, ◌⊎◌,
  inl, inr, Bool, true, false, List, [], ◌∷◌, arith,
}
use libc_jss.UrlParser.{Heap, parse_url}
use libc_jss.UrlParser.Holds.{held, live-free_field}
use libc_jss.Htclient.Ready.{htclient_perform_lem}
use libc_jss.Htclient.{
  Htclient, htclient_url, htclient_request_set, Peer, htclient_perform, htclient_destroy,
  htclient_new,
}
use libc_jss.Htclient.Lost.{lost, htclient_url-live}
use libc_jss.Htclient.Received.{htclient_perform-Settled}

-- The use of a client between `htclient_new` and `htclient_destroy`.
pub data Request : Type 0 where
  request_url : Bytes → Request
  request_text : Bytes → Request
  request_perform : Peer → Request

module _ (grants : ℕ → Bool) where
  -- The client, the open descriptors and the heap behind a list of requests.
  unfoldable pub session : List Request → Htclient → ℕ → Heap → Htclient × ℕ × Heap
  session [] t fds h = (t, fds, h)
  session (request_url formatted ∷ requests) t fds h =
      let r = htclient_url grants formatted h t in session requests r.0.0 fds r.1
  session (request_text formatted ∷ requests) t fds h =
      session requests (htclient_request_set formatted t) fds h
  session (request_perform peer ∷ requests) t fds h =
      let r = htclient_perform grants peer fds t h in session requests r.0.0 r.1 r.2

  -- The blocks of each URL that was parsed, and each header buffer in whose place another came.
  unfoldable pub spilt : List Request → Htclient → ℕ → Heap → ℕ
  spilt [] t fds h = 0
  spilt (request_url formatted ∷ requests) t fds h =
      let parsed = parse_url grants (take 1023 formatted) h in
      let r = htclient_url grants formatted h t in
      lost grants parsed.0 parsed.1 + spilt requests r.0.0 fds r.1
  spilt (request_text formatted ∷ requests) t fds h =
      spilt requests (htclient_request_set formatted t) fds h
  spilt (request_perform peer ∷ requests) t fds h =
      let r = htclient_perform grants peer fds t h in
      (if r.0.1 then held t.header_buf else 0) + spilt requests r.0.0 r.1 r.2

  session-live :
      (requests : List Request) (t : Htclient) (fds : ℕ) (h : Heap)
      → let r = session requests t fds h in
        (r.1 ≡ fds)
        × (r.2.live + held t.header_buf ≡ h.live + spilt requests t fds h + held r.0.header_buf)
  unfolding session spilt
  session-live [] t fds h = (refl, omega arith)
  session-live (request_url formatted ∷ requests) t fds h =
      let r = htclient_url grants formatted h t in
      let (a, b, _) = htclient_url-live grants formatted h t in
      let (c, d) = session-live requests r.0.0 fds r.1 in (c, omega (arith, a, ap held b, d))
  session-live (request_text formatted ∷ requests) t fds h =
      session-live requests (htclient_request_set formatted t) fds h
  session-live (request_perform peer ∷ requests) t fds h =
      let r = htclient_perform grants peer fds t h in
      let (c, d) = session-live requests r.0.0 r.1 r.2 in
      let closed = (htclient_perform_lem grants peer fds t h).0 in
      (
        c ∙ closed,
        elim (htclient_perform-Settled grants peer fds t h).0 [
          | inl (e, b, a) ↦ omega (arith, a, ap held b, d, if_false r.0.1 (held t.header_buf) 0 e)
          | inr (e, a) ↦ omega (arith, a, d, if_true r.0.1 (held t.header_buf) 0 e)
        ],
      )

  -- Some block is refused.
  abbrev pub Refuses : Type 0
  Refuses = (n : ℕ) × (grants n ≡ false)

  session-null_read :
      (requests : List Request) (t : Htclient) (fds : ℕ) (h : Heap)
      → ((session requests t fds h).0.null_read ≡ t.null_read) ⊎ Refuses
  unfolding session
  session-null_read [] t fds h = inl refl
  session-null_read (request_url formatted ∷ requests) t fds h =
      let r = htclient_url grants formatted h t in
      elim (session-null_read requests r.0.0 fds r.1) [
        | inl e ↦ inl (e ∙ (htclient_url-live grants formatted h t).2)
        | inr n ↦ inr n
      ]
  session-null_read (request_text formatted ∷ requests) t fds h =
      session-null_read requests (htclient_request_set formatted t) fds h
  session-null_read (request_perform peer ∷ requests) t fds h =
      let r = htclient_perform grants peer fds t h in
      elim (htclient_perform-Settled grants peer fds t h).1 [
        | inl k ↦ elim (session-null_read requests r.0.0 r.1 r.2) [
          | inl e ↦ inl (e ∙ k)
          | inr n ↦ inr n
        ]
        | inr refused ↦ inr (h.calls, refused)
      ]

-- For a new client, whatever `malloc` and the system answer, and whatever URLs are set and requests
-- made, one of two things holds. Some block was refused and `parse_http_headers` has read `NULL`, and
-- nothing more is said. Or it has read no `NULL`: no descriptor stays open, and `htclient_destroy` frees the client and its last header buffer only, so
-- that every URL that was parsed stays with all of its fields, the copy of the default port
-- included, and so does every header buffer that a later request replaced.
pub htclient_destroy_leaves :
    (grants : ℕ → Bool) (requests : List Request) (fds : ℕ) (h : Heap)
    → 0 < h.live
    → let r = session grants requests htclient_new fds h in
      ((r.0.null_read ≡ true) × Refuses grants)
      ⊎ ((r.0.null_read ≡ false)
          × (r.1 ≡ fds)
          × ((htclient_destroy r.0 r.2).live + 1
              ≡ h.live + spilt grants requests htclient_new fds h))
htclient_destroy_leaves grants requests fds h k =
    let r = session grants requests htclient_new fds h in
    let (c, d) = session-live grants requests htclient_new fds h in
    elim (Bool-cases r.0.null_read) [
      | inr e ↦ inr (e, c, omega (arith, d, k, live-free_field r.0.header_buf r.2))
      | inl e ↦ elim (session-null_read grants requests htclient_new fds h) [
        | inl same ↦ absurd (ground (arith, e, same))
        | inr refused ↦ inl (e, refused)
      ]
    ]
