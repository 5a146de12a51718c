-- ===== src/Netsocket/Turns.antt =====
-- What the event loop's handlers do to a live object.
use libc_jss.Base.{
  if◌then◌else◌, if_true, if_false, Bool-cases, Option-cases, length, take, Bytes, codes, ℤ, ℕ, ◌≡◌,
  refl, sym, ap, subst, ◌∙◌, inl, inr, true, false, Option, none, some, [], ◌∷◌, arith,
}
use libc_jss.Netsocket.{event_connect, event_read, Netsocket, Ways, touch}
use libc_jss.Netsocket.Start.{System, sock_accept, child_of}
use libc_jss.Netsocket.Handlers.{
  Readiness, sockerr, is_zero, is_server, receive, w_in_cb, w_out_cb, w_connect_timeout_cb,
}
use libc_jss.Netsocket.Inside.{IsOrdered, Live, Keeps, touch-Live}
use libc_jss.Netsocket.Calls.{IsSettled, settled}

output_stopped-Live :
    (n : ℕ) (s : Netsocket) (err : ℤ)
    → Live n s
    → Live n (record (touch s) { err = err; w_out = false })
output_stopped-Live n s err h =
    let t = touch-Live n s h in
    (t.0, (t.1.0, (t.1.1.0, (λ k. ((h.1.1.1.0 k).0, refl, (h.1.1.1.0 k).2), h.1.1.1.1))))

timer_stopped-Live :
    (n : ℕ) (s : Netsocket)
    → Live n s
    → Live n (record s { connected = true; w_connect_timeout = false })
timer_stopped-Live n s h =
    (h.0, (h.1.0, (h.1.1.0, (λ k. ((h.1.1.1.0 k).0, (h.1.1.1.0 k).1, refl), h.1.1.1.1))))

module _ {W : Type 0} (ways : Ways W) (sys : System) (r : Readiness) where
  w_in_cb_reads :
      (s : Netsocket)
      → is_server s.mode ≡ false
      → s.connected ≡ true
      → w_in_cb ways sys r s ≡ (receive ways sys r r.arrived (touch s), none)
  unfolding w_in_cb
  w_in_cb_reads s m e = rw (m, e)

  w_in_cb_waits :
      (s : Netsocket)
      → is_server s.mode ≡ false
      → s.connected ≡ false
      → w_in_cb ways sys r s ≡ (ways.returns (touch s), none)
  unfolding w_in_cb
  w_in_cb_waits s m e = rw (m, e)

  -- The handler of an object that is no server.
  pub w_in_cb-receive :
      (s : Netsocket)
      → is_server s.mode ≡ false
      → (w_in_cb ways sys r s).0
        ≡ (if s.connected then receive ways sys r r.arrived (touch s) else ways.returns (touch s))
  w_in_cb-receive s m = elim (Bool-cases s.connected) [
    | inl e ↦ ap (λ x. x.0) (w_in_cb_reads s m e) ∙ sym (if_true s.connected _ _ e)
    | inr e ↦ ap (λ x. x.0) (w_in_cb_waits s m e) ∙ sym (if_false s.connected _ _ e)
  ]

  w_in_cb-child_only : (s : Netsocket) → is_server s.mode ≡ false → (w_in_cb ways sys r s).1 ≡ none
  w_in_cb-child_only s m = elim (Bool-cases s.connected) [
    | inl e ↦ ap (λ x. x.1) (w_in_cb_reads s m e)
    | inr e ↦ ap (λ x. x.1) (w_in_cb_waits s m e)
  ]

  w_in_cb-sock_accept :
      (s : Netsocket) → is_server s.mode ≡ true → (w_in_cb ways sys r s).1 ≡ sock_accept sys s
  unfolding w_in_cb
  w_in_cb-sock_accept s m = rw m refl

module _ {W : Type 0} (ways : Ways W) (P : W → Type 0) (n : ℕ) (keeps : Keeps ways n P)
    (sys : System) (r : Readiness) where
  receive_keeps :
      (arrived : Option Bytes) (s : Netsocket)
      → Live n s
      → s.connected ≡ true
      → P (receive ways sys r arrived s)
  unfolding receive IsOrdered
  receive_keeps none s h k = keeps.keeps_disconnect (some (sys.strerror r.errno)) s h
  receive_keeps (some []) s h k =
      keeps.keeps_disconnect (some (codes "Connection reset by peer")) s h
  receive_keeps (some (c ∷ rest)) s h k =
      let got = take 1024 (c ∷ rest) in
      keeps.keeps_invoke event_read (record s { inbuf = got; inbuf_len = length got }) h
        (k, h.1.1.1.1)

  pub w_in_cb_keeps : (s : Netsocket) → Live n s → IsSettled n s → P (w_in_cb ways sys r s).0
  unfolding w_in_cb
  w_in_cb_keeps s h k = elim (Bool-cases (is_server s.mode)) [
    | inl m ↦ rw m (settled ways P n keeps sys (touch s) (touch-Live n s h) k)
    | inr m ↦ elim (Bool-cases s.connected) [
      | inl e ↦
          subst (λ x. P x.0) (sym (w_in_cb_reads ways sys r s m e))
            (receive_keeps r.arrived (touch s) (touch-Live n s h) e)
      | inr e ↦
          subst (λ x. P x.0) (sym (w_in_cb_waits ways sys r s m e))
            (settled ways P n keeps sys (touch s) (touch-Live n s h) k)
    ]
  ]

  pub w_out_cb_keeps : (s : Netsocket) → Live n s → P (w_out_cb ways sys r s)
  unfolding w_out_cb IsOrdered
  w_out_cb_keeps s h =
      let s' = record (touch s) { err = sockerr r; w_out = false } in
      let t = record s' { connected = true; w_connect_timeout = false } in
      let live = output_stopped-Live n s (sockerr r) h in
      elim (Bool-cases (is_zero (sockerr r))) [
        | inl e ↦ rw e (keeps.keeps_invoke event_connect t (timer_stopped-Live n s' live) h.1.1.1.1)
        | inr e ↦ rw e (keeps.keeps_disconnect (some (sys.strerror (sockerr r))) s' live)
      ]

pub w_connect_timeout_cb_keeps :
    {W : Type 0} (ways : Ways W) (P : W → Type 0) (n : ℕ)
    → Keeps ways n P
    → (s : Netsocket) → Live n s
    → P (w_connect_timeout_cb ways s)
unfolding w_connect_timeout_cb
w_connect_timeout_cb_keeps ways P n keeps s h =
    keeps.keeps_disconnect (some (codes "Connection timed out")) s h

module _ (sys : System) (parent : Netsocket) where
  sock_accept_failed : sys.accept ≡ none → sock_accept sys parent ≡ none
  unfolding sock_accept
  sock_accept_failed m = rw m refl

  sock_accept_done :
      (n : ℕ) → sys.accept ≡ some n → sock_accept sys parent ≡ some (child_of sys parent n)
  unfolding sock_accept
  sock_accept_done n m = rw m refl

  pub sock_accept_child :
      (child : Netsocket)
      → sock_accept sys parent ≡ some child
      → (n : ℕ) × (child ≡ child_of sys parent n)
  sock_accept_child child e = elim (Option-cases sys.accept) [
    | inl m ↦ absurd (ground (arith, sock_accept_failed m, e))
    | inr (n, m) ↦ (n, ground (arith, sock_accept_done n m, e))
  ]

pub child_of-Live :
    (sys : System) (parent : Netsocket) (n : ℕ)
    → Live 0 (child_of sys parent n) × ((child_of sys parent n).destroy_request ≡ false)
unfolding child_of IsOrdered
child_of-Live sys parent n = ((refl, (refl, (refl, (λ k. absurd (ground (arith, k)), tt)))), refl)

-- The only child is that of a server whose `accept` succeeds.
pub w_in_cb-accepted :
    {W : Type 0} (ways : Ways W) (sys : System) (r : Readiness) (s child : Netsocket)
    → (w_in_cb ways sys r s).1 ≡ some child
    → sock_accept sys s ≡ some child
w_in_cb-accepted ways sys r s child e = elim (Bool-cases (is_server s.mode)) [
  | inl m ↦ sym (w_in_cb-sock_accept ways sys r s m) ∙ e
  | inr m ↦ absurd (ground (arith, w_in_cb-child_only ways sys r s m, e))
]

pub w_in_cb-child_of :
    {W : Type 0} (ways : Ways W) (sys : System) (r : Readiness) (s child : Netsocket)
    → (w_in_cb ways sys r s).1 ≡ some child
    → (n : ℕ) × (child ≡ child_of sys s n)
w_in_cb-child_of ways sys r s child e =
    sock_accept_child sys s child (w_in_cb-accepted ways sys r s child e)
