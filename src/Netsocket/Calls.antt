-- ===== src/Netsocket/Calls.antt =====
-- The calls of a user on a live object, in a callback or outside.
use libc_jss.Base.{
  ◌==◌, if◌then◌else◌, Bool-cases, length, take, Bytes, codes, ℤ, pos, ℕ, ◌≡◌, refl, ◌∙◌, inl, inr,
  Bool, true, false, Option, none, some, arith,
}
use libc_jss.Netsocket.{
  is_open, client, server, dir_out, Netsocket, Ways, touch, sock_close, save_reason,
  disconnect_quietly, set_host, set_lhost, set_port, set_lport, netsocket_write, netsocket_destroy,
  netsocket_disable_lookup_on_accept,
}
use libc_jss.Netsocket.Start.{
  System, einprogress, as_sock, port_invalid, connect_to, connect_found, netsocket_connect,
  listen_on, listen_found, netsocket_listen,
}
use libc_jss.Netsocket.Script.{
  Call, perform, call_connect, call_listen, call_disconnect, call_disconnect_withevent, call_write,
  call_printf, call_destroy, call_host, call_lhost, call_port, call_lport,
  call_disable_lookup_on_accept,
}
use libc_jss.Netsocket.Inside.{
  IsQuiet, IsOrdered, Live, Ended, Keeps, touch-Live, disconnect_quietly-Live,
  netsocket_destroy-Ends,
}

-- A destroy that was asked for is not left undone outside callbacks.
abbrev pub IsSettled : ℕ → Netsocket → Type 0
IsSettled n s = n ≡ 0 → s.destroy_request ≡ false

IsQuiet-open : (x : Option ℕ) (s : Netsocket) → s.sock ≡ as_sock x → IsQuiet s
IsQuiet-open none s e k = ground (arith, e, k)
IsQuiet-open (some n) s e k = ground (arith, e, k)

-- With a socket, any of the watchers may be active.
opened-Live :
    (x : Option ℕ) (ip : Bytes) (a b c : Bool) (n : ℕ) (s : Netsocket)
    → Live n s
    → Live n (record s {
      hostent = true;
      ip = ip;
      sock = as_sock x;
      w_in = a;
      w_out = b;
      w_connect_timeout = c;
    })
opened-Live x ip a b c n s h = (
  h.0,
  (
    h.1.0,
    (
      h.1.1.0,
      (
        IsQuiet-open x (record s { sock = as_sock x; w_in = a; w_out = b; w_connect_timeout = c })
            refl,
        h.1.1.1.1,
      ),
    ),
  ),
)

disconnect_quietly-destroy_request :
    (reason : Option Bytes) (s : Netsocket)
    → (disconnect_quietly reason s).destroy_request ≡ s.destroy_request
unfolding disconnect_quietly sock_close save_reason
disconnect_quietly-destroy_request none s = ground arith
disconnect_quietly-destroy_request (some r) s = ground arith

pub quietly-Ended :
    (reason : Option Bytes) (n : ℕ) (s : Netsocket)
    → Live n s
    → IsSettled n s
    → Ended n (disconnect_quietly reason s)
quietly-Ended reason n s h k = (
  false,
  inl (
    (disconnect_quietly-Live reason n s h).0,
    λ e. disconnect_quietly-destroy_request reason s ∙ k e,
  ),
)

netsocket_write-Ended :
    (answer : ℤ) (bytes : Bytes) (n : ℕ) (s : Netsocket)
    → Live n s
    → IsSettled n s
    → Ended n (netsocket_write answer bytes s).0
unfolding netsocket_write IsOrdered
netsocket_write-Ended answer bytes n s h k = elim (Bool-cases (is_open s.sock)) [
  | inl e ↦ rw e (false, inl (touch-Live n s h, k))
  | inr e ↦ rw e (false, inl (touch-Live n s h, k))
]

set_host-Ended :
    (host : Option Bytes) (n : ℕ) (s : Netsocket)
    → Live n s
    → IsSettled n s
    → Ended n (set_host host s)
set_host-Ended none n s h k = (false, inl (h, k))
set_host-Ended (some host) n s h k = (false, inl (touch-Live n s h, k))

set_lhost-Ended :
    (lhost : Option Bytes) (n : ℕ) (s : Netsocket)
    → Live n s
    → IsSettled n s
    → Ended n (set_lhost lhost s)
set_lhost-Ended none n s h k = (false, inl (h, k))
set_lhost-Ended (some lhost) n s h k = (false, inl (touch-Live n s h, k))

connect_to-Ended :
    (sys : System) (n : ℕ) (ip : Bytes) (s : Netsocket)
    → Live n s
    → IsSettled n s
    → Ended n (connect_to sys ip s).0
unfolding connect_to
connect_to-Ended sys n ip s h k =
    let s' = record s {
      hostent = true;
      ip = ip;
      sock = as_sock sys.socket;
      w_in = true;
      w_out = true;
      w_connect_timeout = true;
    } in
    let live = opened-Live sys.socket ip true true true n s h in
    elim (Bool-cases (sys.errno == einprogress)) [
      | inl e ↦ rw e (false, inl (live, k))
      | inr e ↦ rw e (quietly-Ended (some (sys.strerror (pos sys.errno))) n s' live k)
    ]

module _ {W : Type 0} (ways : Ways W) (P : W → Type 0) (n : ℕ) (keeps : Keeps ways n P)
    (sys : System) where
  pub settled : (s : Netsocket) → Live n s → IsSettled n s → P (ways.returns s)
  settled s h k = keeps.keeps_return s (false, inl (h, k))

  connect_found_keeps :
      (found : Option Bytes) (s : Netsocket)
      → Live n s
      → IsSettled n s
      → P (connect_found ways sys found s).0
  unfolding connect_found
  connect_found_keeps none s h k =
      keeps.keeps_disconnect (some (codes "Host not found")) (record s { hostent = false }) h
  connect_found_keeps (some ip) s h k =
      keeps.keeps_return (connect_to sys ip s).0 (connect_to-Ended sys n ip s h k)

  netsocket_connect_keeps :
      (s : Netsocket) → Live n s → IsSettled n s → P (netsocket_connect ways sys s).0
  unfolding netsocket_connect
  netsocket_connect_keeps s h k =
      let s' = record (touch s) { mode = client; direction = dir_out } in
      elim (Bool-cases (port_invalid s.port)) [
        | inl e ↦ rw e (keeps.keeps_disconnect (some (codes "Invalid port")) s' (touch-Live n s h))
        | inr e ↦ rw e (connect_found_keeps sys.lookup s' (touch-Live n s h) k)
      ]

  listen_on_keeps :
      (ip : Bytes) (s : Netsocket) → Live n s → IsSettled n s → P (listen_on ways sys ip s).0
  unfolding listen_on
  listen_on_keeps ip s h k =
      let s' = record s { hostent = true; ip = ip; sock = as_sock sys.socket } in
      let live = opened-Live sys.socket ip s.w_in s.w_out s.w_connect_timeout n s h in
      let started = opened-Live sys.socket ip true true s.w_connect_timeout n s h in
      elim (Bool-cases sys.setsockopt_failed) [
        | inl e ↦ rw e (settled s' live k)
        | inr e ↦ elim (Bool-cases sys.bind_failed) [
          | inl b ↦ rw (e, b) (keeps.keeps_disconnect (some (codes "Error on bind()")) s' live)
          | inr b ↦ elim (Bool-cases sys.listen_failed) [
            | inl l ↦
                rw (e, b, l) (keeps.keeps_disconnect (some (codes "Error on listen()")) s' live)
            | inr l ↦ rw (e, b, l) (settled (record s' { w_in = true; w_out = true }) started k)
          ]
        ]
      ]

  listen_found_keeps :
      (found : Option Bytes) (s : Netsocket)
      → Live n s
      → IsSettled n s
      → P (listen_found ways sys found s).0
  unfolding listen_found
  listen_found_keeps none s h k =
      keeps.keeps_disconnect (some (codes "Local host not found")) (record s { hostent = false }) h
  listen_found_keeps (some ip) s h k = listen_on_keeps ip s h k

  netsocket_listen_keeps :
      (s : Netsocket) → Live n s → IsSettled n s → P (netsocket_listen ways sys s).0
  unfolding netsocket_listen
  netsocket_listen_keeps s h k =
      let s' = record (touch s) {
        mode = server;
        lhost = if length s.lhost == 0 then codes "0.0.0.0" else s.lhost;
      } in
      elim (Bool-cases (port_invalid s.lport)) [
        | inl e ↦
            rw e (keeps.keeps_disconnect (some (codes "Invalid local port")) s' (touch-Live n s h))
        | inr e ↦ rw e (listen_found_keeps sys.lookup s' (touch-Live n s h) k)
      ]

  pub perform_keeps :
      (c : Call) (s : Netsocket) → Live n s → IsSettled n s → P (perform ways sys c s)
  unfolding perform
  perform_keeps call_connect s h k = netsocket_connect_keeps s h k
  perform_keeps call_listen s h k = netsocket_listen_keeps s h k
  perform_keeps (call_disconnect reason) s h k =
      keeps.keeps_return (disconnect_quietly reason s) (quietly-Ended reason n s h k)
  perform_keeps (call_disconnect_withevent reason) s h k = keeps.keeps_disconnect reason s h
  perform_keeps (call_write bytes) s h k =
      keeps.keeps_return (netsocket_write sys.send bytes s).0
        (netsocket_write-Ended sys.send bytes n s h k)
  perform_keeps (call_printf formatted) s h k =
      keeps.keeps_return (netsocket_write sys.send (take 8190 formatted) s).0
        (netsocket_write-Ended sys.send (take 8190 formatted) n s h k)
  perform_keeps call_destroy s h k =
      keeps.keeps_return (netsocket_destroy s) (false, netsocket_destroy-Ends n s h)
  perform_keeps (call_host host) s h k =
      keeps.keeps_return (set_host host s) (set_host-Ended host n s h k)
  perform_keeps (call_lhost lhost) s h k =
      keeps.keeps_return (set_lhost lhost s) (set_lhost-Ended lhost n s h k)
  perform_keeps (call_port port) s h k = settled (set_port port s) (touch-Live n s h) k
  perform_keeps (call_lport lport) s h k = settled (set_lport lport s) (touch-Live n s h) k
  perform_keeps call_disable_lookup_on_accept s h k =
      settled (netsocket_disable_lookup_on_accept s) (touch-Live n s h) k
