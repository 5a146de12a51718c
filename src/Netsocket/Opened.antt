-- ===== src/Netsocket/Opened.antt =====
-- What `netsocket_connect` returns and leaves.
use libc_jss.Base.{
  ◌==◌, ==_iff, Bool-cases, Option-cases, Bytes, codes, ℤ, pos, negsuc, ℕ, ◌≡◌, refl, ap, ◌∙◌, ◌≢◌,
  ◌⊎◌, inl, inr, true, false, Option, none, some, arith,
}
use libc_jss.Netsocket.{
  is_open, client, dir_out, Netsocket, Ways, touch, sock_close, save_reason, disconnect_quietly,
}
use libc_jss.Netsocket.Start.{
  System, as_sock, port_invalid, connect_to, connect_found, netsocket_connect,
}

-- The port is in range, and the host is found.
abbrev pub IsFound : System → Netsocket → Type 0
IsFound sys s = (port_invalid s.port ≡ false) × ((ip : Bytes) × (sys.lookup ≡ some ip))

-- A client on an open socket, all watchers active, and no event yet.
abbrev pub IsArmed : Netsocket → Netsocket → Type 0
IsArmed s t =
    (is_open t.sock ≡ true)
    × (t.w_in ≡ true)
    × (t.w_out ≡ true)
    × (t.w_connect_timeout ≡ true)
    × (t.mode ≡ client)
    × (t.direction ≡ dir_out)
    × (t.log ≡ s.log)

-- Closed with no event.
abbrev pub IsSilent : Netsocket → Netsocket → Type 0
IsSilent s t = (is_open t.sock ≡ false) × (t.connected ≡ false) × (t.log ≡ s.log)

is_open-as_sock : (x : Option ℕ) → is_open (as_sock x) ≡ true
is_open-as_sock none = refl
is_open-as_sock (some n) = refl

sock_close_closed :
    (s : Netsocket) → (is_open (sock_close s).sock ≡ false) × ((sock_close s).log ≡ s.log)
unfolding sock_close
sock_close_closed s = elim (Bool-cases (is_open s.sock)) [
  | inl e ↦ rw e (refl, refl)
  | inr e ↦ rw e (e, refl)
]

disconnect_quietly-IsSilent :
    (reason : Option Bytes) (s : Netsocket) → IsSilent s (disconnect_quietly reason s)
unfolding disconnect_quietly save_reason
disconnect_quietly-IsSilent none s = let k = sock_close_closed (touch s) in (k.0, refl, k.1)
disconnect_quietly-IsSilent (some r) s = let k = sock_close_closed (touch s) in (k.0, refl, k.1)

module _ (sys : System) (ip : Bytes) (s : Netsocket) where
  connect_to-IsArmed :
      (sys.errno == 115) ≡ true
      → s.mode ≡ client
      → s.direction ≡ dir_out
      → ((connect_to sys ip s).1 ≡ pos 0) × IsArmed s (connect_to sys ip s).0
  unfolding connect_to
  connect_to-IsArmed e m d = rw e (refl, (is_open-as_sock sys.socket, refl, refl, refl, m, d, refl))

  connect_to_failed :
      (sys.errno == 115) ≡ false
      → ((connect_to sys ip s).1 ≡ negsuc 0) × IsSilent s (connect_to sys ip s).0
  unfolding connect_to
  connect_to_failed e = rw e (refl, disconnect_quietly-IsSilent _ _)

module _ {W : Type 0} (ways : Ways W) (sys : System) (s : Netsocket) where
  -- `connect` is in progress, and 0 is returned.
  abbrev pub IsDialled : W × ℤ → Type 0
  IsDialled r =
      (IsFound sys s × (sys.errno ≡ 115))
      × (r.1 ≡ pos 0)
      × ((t : Netsocket) × (r.0 ≡ ways.returns t) × IsArmed s t)

  -- `connect` fails, and -1 is returned with no event.
  abbrev pub IsDropped : W × ℤ → Type 0
  IsDropped r =
      (IsFound sys s × (sys.errno ≢ 115))
      × (r.1 ≡ negsuc 0)
      × ((t : Netsocket) × (r.0 ≡ ways.returns t) × IsSilent s t)

  -- There is nothing to connect to: `disconnect` tells the callback, and -1 is returned.
  abbrev pub IsRefused : W × ℤ → Type 0
  IsRefused r =
      ((port_invalid s.port ≡ true) ⊎ (sys.lookup ≡ none))
      × (r.1 ≡ negsuc 0)
      × ((reason : Bytes) × (t : Netsocket) × (r.0 ≡ ways.disconnects (some reason) t)
          × (t.sock ≡ s.sock)
          × (t.log ≡ s.log))

  port-IsRefused : port_invalid s.port ≡ true → IsRefused (netsocket_connect ways sys s)
  unfolding netsocket_connect
  port-IsRefused e =
      let t = record (touch s) { mode = client; direction = dir_out } in
      (inl e, rw e refl, (codes "Invalid port", t, rw e refl, refl, refl))

  host-IsRefused :
      port_invalid s.port ≡ false → sys.lookup ≡ none → IsRefused (netsocket_connect ways sys s)
  unfolding netsocket_connect connect_found
  host-IsRefused e k =
      let t = record (touch s) { mode = client; direction = dir_out; hostent = false } in
      (inr k, rw (e, k) refl, (codes "Host not found", t, rw (e, k) refl, refl, refl))

  dialled :
      (ip : Bytes)
      → port_invalid s.port ≡ false
      → sys.lookup ≡ some ip
      → netsocket_connect ways sys s ≡ (
          let r = connect_to sys ip (record (touch s) { mode = client; direction = dir_out }) in
          (ways.returns r.0, r.1))
  unfolding netsocket_connect connect_found
  dialled ip e k = rw (e, k) refl

  found_lem :
      (ip : Bytes)
      → port_invalid s.port ≡ false
      → sys.lookup ≡ some ip
      → IsDialled (netsocket_connect ways sys s) ⊎ IsDropped (netsocket_connect ways sys s)
  found_lem ip e k =
      let s' = record (touch s) { mode = client; direction = dir_out } in
      let t = (connect_to sys ip s').0 in
      let d = dialled ip e k in
      elim (Bool-cases (sys.errno == 115)) [
        | inl n ↦
            let (z, armed) = connect_to-IsArmed sys ip s' n refl refl in
            inl (
              ((e, (ip, k)), (==_iff sys.errno 115).0 n),
              ap (λ x. x.1) d ∙ z,
              (t, ap (λ x. x.0) d, armed),
            )
        | inr n ↦
            let (z, silent) = connect_to_failed sys ip s' n in
            inr (
              ((e, (ip, k)), λ c. ground (arith, n, c)),
              ap (λ x. x.1) d ∙ z,
              (t, ap (λ x. x.0) d, silent),
            )
      ]

-- `netsocket_connect` ends in one of three ways. If the port is in range, the host is found and
-- `connect` is in progress, it returns 0 with the socket open, both watchers and the timer active,
-- and no event sent. If only `connect` fails, it returns -1 with the socket closed, and the
-- callback hears nothing of it. If the port is out of range or the host is not found, it calls
-- `disconnect` with a reason before any event, and returns -1.
pub netsocket_connect_lem :
    {W : Type 0} (ways : Ways W) (sys : System) (s : Netsocket)
    → let r = netsocket_connect ways sys s in
      IsDialled ways sys s r ⊎ IsDropped ways sys s r ⊎ IsRefused ways sys s r
netsocket_connect_lem ways sys s = elim (Bool-cases (port_invalid s.port)) [
  | inl p ↦ inr (inr (port-IsRefused ways sys s p))
  | inr p ↦ elim (Option-cases sys.lookup) [
    | inl k ↦ inr (inr (host-IsRefused ways sys s p k))
    | inr (ip, k) ↦ elim (found_lem ways sys s ip p k) [ inl d ↦ inl d | inr d ↦ inr (inl d) ]
  ]
]
