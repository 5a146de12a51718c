-- ===== src/Htclient/Received.antt =====
-- htclient.c: the block that a response takes, and the `NULL` that is read when it is refused.
use libc_jss.Base.{
  if◌then◌else◌, Bool-cases, Option-cases, take, Bytes, cstr, ℕ, ◌+◌, ◌≡◌, refl, sym, ap, subst,
  ◌∙◌, ◌⊎◌, inl, inr, Bool, true, false, Option, none, some,
}
use libc_jss.UrlParser.{Heap, malloc}
use libc_jss.UrlParser.Holds.{held}
use libc_jss.Htclient.Ready.{htclient_perform_opened}
use libc_jss.Htclient.{
  close, parse_http_headers, parse_copy, Htclient, strdup, Peer, receive, exchange,
  htclient_perform,
}
use libc_jss.Htclient.Lost.{strdup-live}

-- A response that is read is kept in a new block, if `strdup` is granted it, in place of the old
-- one; or no block changes.
abbrev Fetched : Htclient → Heap → (Htclient × Bool) × ℕ × Heap → Type 0
Fetched t h r =
    ((r.0.1 ≡ false) × (r.0.0.header_buf ≡ t.header_buf) × (r.2.live ≡ h.live))
    ⊎ ((r.0.1 ≡ true) × (r.2.live ≡ h.live + held r.0.0.header_buf))

-- What `NULL` has been read behind a call of `strdup`.
abbrev Reads : Htclient → Htclient → Bool → Type 0
Reads t t' granted = (t'.null_read ≡ t.null_read) ⊎ (granted ≡ false)

parse_copy_keeps :
    (copy : Option Bytes) (t : Htclient) → (parse_copy copy t).header_buf ≡ t.header_buf
unfolding parse_http_headers
parse_copy_keeps none t = refl
parse_copy_keeps (some buf) t = refl

parse_copy-null_read :
    (granted : Bool) (s : Bytes) (t : Htclient)
    → Reads t (parse_copy (if granted then some s else none) t) granted
unfolding parse_http_headers
parse_copy-null_read true s t = inl refl
parse_copy-null_read false s t = inr refl

module _ (grants : ℕ → Bool) where
  receive-Fetched :
      (answer : Option Bytes) (fds : ℕ) (t : Htclient) (h : Heap)
      → let r = receive grants answer t h in
        Fetched t h (r.0, fds, r.1) × Reads t r.0.0 (grants h.calls)
  unfolding malloc
  receive-Fetched none fds t h = (inl (refl, refl, refl), inl refl)
  receive-Fetched (some bytes) fds t h =
      let response = cstr (take 1023 bytes) in
      let (copy, h') = strdup grants response h in
      let t' = record t { response_data = response; header_buf = copy } in
      (
        inr (
          refl,
          strdup-live grants response h
              ∙ ap (λ b. h.live + held b) (sym (parse_copy_keeps copy t')),
        ),
        parse_copy-null_read (grants h.calls) response t',
      )

  -- How a call ends in the blocks, and with the `NULL` that it may read.
  abbrev Settled : Htclient → Heap → (Htclient × Bool) × ℕ × Heap → Type 0
  Settled t h r = Fetched t h r × Reads t r.0.0 (grants h.calls)

  exchange-Settled :
      (peer : Peer) (fds : ℕ) (t : Htclient) (h : Heap) → Settled t h (exchange grants peer fds t h)
  unfolding exchange
  exchange-Settled peer fds t h = elim (Bool-cases peer.host_found) [
    | inr e ↦ rw e (inl (refl, refl, refl), inl refl)
    | inl e ↦ elim (Option-cases peer.connect_error) [
      | inr (m, k) ↦ rw (e, k) (inl (refl, refl, refl), inl refl)
      | inl k ↦ elim (Bool-cases peer.write_failed) [
        | inl w ↦ rw (e, k, w) (inl (refl, refl, refl), inl refl)
        | inr w ↦ rw (e, k, w) (receive-Fetched peer.answer (close fds) t h)
      ]
    ]
  ]

  pub htclient_perform-Settled :
      (peer : Peer) (fds : ℕ) (t : Htclient) (h : Heap)
      → Settled t h (htclient_perform grants peer fds t h)
  unfolding htclient_perform
  htclient_perform-Settled peer fds t h = elim (Bool-cases t.url_set) [
    | inr e ↦ rw e (inl (refl, refl, refl), inl refl)
    | inl e ↦ elim (Option-cases peer.socket_error) [
      | inr (m, k) ↦ rw (e, k) (inl (refl, refl, refl), inl refl)
      | inl k ↦
          subst (Settled t h) (sym (htclient_perform_opened grants peer fds t h e k))
            (exchange-Settled peer (fds + 1) t h)
    ]
  ]
