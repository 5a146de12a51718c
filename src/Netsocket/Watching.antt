-- ===== src/Netsocket/Watching.antt =====
-- What each call and each handler of an object does to its watchers.
use libc_jss.Base.{
  ◌==◌, if◌then◌else◌, Bool-cases, length, take, Bytes, codes, ℤ, pos, ℕ, ◌≡◌, refl, sym, subst,
  inl, inr, Bool, true, false, Option, none, some, [], ◌∷◌, arith,
}
use libc_jss.Netsocket.{
  is_open, client, server, dir_out, event_connect, event_read, Netsocket, Ways, touch,
  disconnect_quietly, netsocket_destroy, netsocket_write, set_host, set_lhost, set_port, set_lport,
  netsocket_disable_lookup_on_accept,
}
use libc_jss.Netsocket.Start.{
  System, einprogress, as_sock, port_invalid, connect_to, connect_found, netsocket_connect,
  listen_on, listen_found, netsocket_listen, child_of,
}
use libc_jss.Netsocket.Handlers.{Readiness, sockerr, is_zero, is_server, receive, w_in_cb, w_out_cb}
use libc_jss.Netsocket.Script.{
  Call, call_connect, call_listen, call_disconnect, call_disconnect_withevent, call_write,
  call_printf, call_destroy, call_host, call_lhost, call_port, call_lport,
  call_disable_lookup_on_accept, perform,
}
use libc_jss.Netsocket.Turns.{w_in_cb-receive}
use libc_jss.Netsocket.Watched.{
  IsWatched, closed-IsWatched, disconnect_quietly_closed, netsocket_destroy-IsWatched, Watches,
}

connect_to-IsWatched :
    (closes : Bool) (sys : System) (ip : Bytes) (s : Netsocket)
    → IsWatched closes (connect_to sys ip s).0
unfolding connect_to
connect_to-IsWatched closes sys ip s =
    let s' = record s {
      hostent = true;
      ip = ip;
      sock = as_sock sys.socket;
      w_in = true;
      w_out = true;
      w_connect_timeout = true;
    } in
    let reason = some (sys.strerror (pos sys.errno)) in
    elim (Bool-cases (sys.errno == einprogress)) [
      | inl e ↦ rw e (λ k. (refl, refl))
      | inr e ↦ rw e (
          closed-IsWatched closes (disconnect_quietly reason s')
            (disconnect_quietly_closed reason s'))
    ]

netsocket_write-IsWatched :
    (closes : Bool) (answer : ℤ) (bytes : Bytes) (s : Netsocket)
    → IsWatched closes s
    → IsWatched closes (netsocket_write answer bytes s).0
unfolding netsocket_write
netsocket_write-IsWatched closes answer bytes s h = elim (Bool-cases (is_open s.sock)) [
  | inl e ↦ rw e h
  | inr e ↦ rw e h
]

module _ {W : Type 0} (ways : Ways W) (closes : Bool) (P : W → Type 0)
    (watches : Watches ways closes P) (sys : System) where
  connect_found_watches :
      (found : Option Bytes) (s : Netsocket) → P (connect_found ways sys found s).0
  unfolding connect_found
  connect_found_watches none s = watches.watches_disconnect _ _
  connect_found_watches (some ip) s =
      watches.watches_return _ (connect_to-IsWatched closes sys ip s)

  netsocket_connect_watches : (s : Netsocket) → P (netsocket_connect ways sys s).0
  unfolding netsocket_connect
  netsocket_connect_watches s =
      let s' = record (touch s) { mode = client; direction = dir_out } in
      elim (Bool-cases (port_invalid s.port)) [
        | inl e ↦ rw e (watches.watches_disconnect (some (codes "Invalid port")) s')
        | inr e ↦ rw e (connect_found_watches sys.lookup s')
      ]

  -- A server is no client.
  server_watches : (s : Netsocket) → s.mode ≡ server → P (ways.returns s)
  server_watches s m = watches.watches_return s (λ k. absurd (ground (arith, m, k)))

  listen_on_watches : (ip : Bytes) (s : Netsocket) → s.mode ≡ server → P (listen_on ways sys ip s).0
  unfolding listen_on
  listen_on_watches ip s m =
      let s' = record s { hostent = true; ip = ip; sock = as_sock sys.socket } in
      elim (Bool-cases sys.setsockopt_failed) [
        | inl e ↦ rw e (server_watches s' m)
        | inr e ↦ elim (Bool-cases sys.bind_failed) [
          | inl b ↦ rw (e, b) (watches.watches_disconnect (some (codes "Error on bind()")) s')
          | inr b ↦ elim (Bool-cases sys.listen_failed) [
            | inl l ↦
                rw (e, b, l) (watches.watches_disconnect (some (codes "Error on listen()")) s')
            | inr l ↦ rw (e, b, l) (server_watches (record s' { w_in = true; w_out = true }) m)
          ]
        ]
      ]

  listen_found_watches :
      (found : Option Bytes) (s : Netsocket) → s.mode ≡ server → P (listen_found ways sys found s).0
  unfolding listen_found
  listen_found_watches none s m = watches.watches_disconnect _ _
  listen_found_watches (some ip) s m = listen_on_watches ip s m

  netsocket_listen_watches : (s : Netsocket) → P (netsocket_listen ways sys s).0
  unfolding netsocket_listen
  netsocket_listen_watches s =
      let s' = record (touch s) {
        mode = server;
        lhost = if length s.lhost == 0 then codes "0.0.0.0" else s.lhost;
      } in
      elim (Bool-cases (port_invalid s.lport)) [
        | inl e ↦ rw e (watches.watches_disconnect (some (codes "Invalid local port")) s')
        | inr e ↦ rw e (listen_found_watches sys.lookup s' refl)
      ]

  pub perform_watches : (c : Call) (s : Netsocket) → IsWatched closes s → P (perform ways sys c s)
  unfolding perform
  perform_watches call_connect s h = netsocket_connect_watches s
  perform_watches call_listen s h = netsocket_listen_watches s
  perform_watches (call_disconnect reason) s h =
      watches.watches_return (disconnect_quietly reason s)
        (closed-IsWatched closes (disconnect_quietly reason s) (disconnect_quietly_closed reason s))
  perform_watches (call_disconnect_withevent reason) s h = watches.watches_disconnect reason s
  perform_watches (call_write bytes) s h =
      watches.watches_return (netsocket_write sys.send bytes s).0
        (netsocket_write-IsWatched closes sys.send bytes s h)
  perform_watches (call_printf formatted) s h =
      watches.watches_return (netsocket_write sys.send (take 8190 formatted) s).0
        (netsocket_write-IsWatched closes sys.send (take 8190 formatted) s h)
  perform_watches call_destroy s h =
      watches.watches_return (netsocket_destroy s) (netsocket_destroy-IsWatched closes s h)
  perform_watches (call_host none) s h = watches.watches_return s h
  perform_watches (call_host (some host)) s h = watches.watches_return (set_host (some host) s) h
  perform_watches (call_lhost none) s h = watches.watches_return s h
  perform_watches (call_lhost (some lhost)) s h =
      watches.watches_return (set_lhost (some lhost) s) h
  perform_watches (call_port port) s h = watches.watches_return (set_port port s) h
  perform_watches (call_lport lport) s h = watches.watches_return (set_lport lport s) h
  perform_watches call_disable_lookup_on_accept s h =
      watches.watches_return (netsocket_disable_lookup_on_accept s) h

either : {W : Type 0} (P : W → Type 0) (b : Bool) (x y : W) → P x → P y → P (if b then x else y)
either P true x y h k = h
either P false x y h k = k

-- The handlers run outside callbacks.
module _ {W : Type 0} (ways : Ways W) (P : W → Type 0) (watches : Watches ways false P)
    (sys : System) (r : Readiness) where
  receive_watches :
      (arrived : Option Bytes) (s : Netsocket)
      → IsWatched false s
      → P (receive ways sys r arrived s)
  unfolding receive
  receive_watches none s h = watches.watches_disconnect _ s
  receive_watches (some []) s h = watches.watches_disconnect _ s
  receive_watches (some (c ∷ rest)) s h = watches.watches_invoke event_read _ h

  pub w_in_cb_watches : (s : Netsocket) → IsWatched false s → P (w_in_cb ways sys r s).0
  unfolding w_in_cb
  w_in_cb_watches s h = elim (Bool-cases (is_server s.mode)) [
    | inl m ↦ rw m (watches.watches_return (touch s) h)
    | inr m ↦ subst P (sym (w_in_cb-receive ways sys r s m)) (
        either P s.connected _ _ (receive_watches r.arrived (touch s) h)
          (watches.watches_return (touch s) h))
  ]

  pub w_out_cb_watches : (s : Netsocket) → P (w_out_cb ways sys r s)
  unfolding w_out_cb
  w_out_cb_watches s =
      let s' = record (touch s) { err = sockerr r; w_out = false } in
      let t = record s' { connected = true; w_connect_timeout = false } in
      elim (Bool-cases (is_zero (sockerr r))) [
        | inl e ↦ rw e (watches.watches_invoke event_connect t (λ k. absurd (ground (arith, k))))
        | inr e ↦ rw e (watches.watches_disconnect (some (sys.strerror (sockerr r))) s')
      ]

pub child_of-IsWatched :
    (closes : Bool) (sys : System) (parent : Netsocket) (n : ℕ)
    → IsWatched closes (child_of sys parent n)
unfolding child_of
child_of-IsWatched closes sys parent n k = absurd (ground (arith, k))
