-- ===== src/Netsocket/Watched.antt =====
-- While an object connects to a remote host, its output watcher and its timer are active: what each
-- call and handler does to that.
use libc_jss.Base.{
  ltb, ◌==◌, Bool-cases, Bytes, ◌-◌, ◌≡◌, refl, inl, inr, Bool, true, false, not, ◌&&◌, ◌||◌,
  Option, none, some, arith,
}
use libc_jss.Netsocket.{
  is_open, Mode, Direction, client, server, mode_unset, direction_unset, dir_in, dir_out, Event,
  Netsocket, Ways, touch, sock_close, save_reason, disconnect_quietly, netsocket_destroy,
  leave_callback,
}
use libc_jss.Netsocket.Part.{closing}

abbrev pub is_client : Mode → Bool
is_client client = true
is_client server = false
is_client mode_unset = false

abbrev pub is_outgoing : Direction → Bool
is_outgoing dir_out = true
is_outgoing dir_in = false
is_outgoing direction_unset = false

-- A socket to a remote host is open, and is not connected or, where `closes` holds, will not count
-- as connected behind the callback.
abbrev pub is_dialling : Bool → Netsocket → Bool
is_dialling closes s =
    is_open s.sock && (is_client s.mode && (is_outgoing s.direction && (closes || not s.connected)))

abbrev pub IsWatched : Bool → Netsocket → Type 0
IsWatched closes s = is_dialling closes s ≡ true → (s.w_out ≡ true) × (s.w_connect_timeout ≡ true)

pub closed-IsWatched : (closes : Bool) (s : Netsocket) → is_open s.sock ≡ false → IsWatched closes s
closed-IsWatched closes s e k = ground (arith, e, k)

pub IsWatched-connected :
    (closes : Bool) (s : Netsocket)
    → IsWatched true s
    → IsWatched closes (record (touch s) { connected = false })
IsWatched-connected closes s h k = h (ground (arith, k))

sock_close_closed : (s : Netsocket) → is_open (sock_close s).sock ≡ false
unfolding sock_close
sock_close_closed s = elim (Bool-cases (is_open s.sock)) [ inl e ↦ rw e refl | inr e ↦ rw e e ]

pub closing_closed :
    (reason : Option Bytes) (s : Netsocket) → is_open (closing reason s).sock ≡ false
unfolding save_reason
closing_closed none s = sock_close_closed (touch s)
closing_closed (some reason) s = sock_close_closed (touch s)

pub disconnect_quietly_closed :
    (reason : Option Bytes) (s : Netsocket) → is_open (disconnect_quietly reason s).sock ≡ false
unfolding disconnect_quietly
disconnect_quietly_closed reason s = closing_closed reason s

pub netsocket_destroy-IsWatched :
    (closes : Bool) (s : Netsocket) → IsWatched closes s → IsWatched closes (netsocket_destroy s)
unfolding netsocket_destroy
netsocket_destroy-IsWatched closes s h = elim (Bool-cases (ltb 0 s.in_callback)) [
  | inl e ↦ rw e h
  | inr e ↦ rw e (
      closed-IsWatched closes (record (disconnect_quietly none (touch s)) { freed = true })
        (disconnect_quietly_closed none (touch s)))
]

pub leave_callback-IsWatched :
    (closes : Bool) (s : Netsocket) → IsWatched closes s → IsWatched closes (leave_callback s)
unfolding leave_callback
leave_callback-IsWatched closes s h =
    let s' = record (touch s) { in_callback = s.in_callback - 1 } in
    elim (Bool-cases (s'.destroy_request && s'.in_callback == 0)) [
      | inl e ↦ rw e (netsocket_destroy-IsWatched closes s' h)
      | inr e ↦ rw e h
    ]

-- What the three ways out of a function make hold of the state; `disconnect` closes the socket
-- whatever holds of the object.
pub record Watches {W : Type 0} (ways : Ways W) (closes : Bool) (P : W → Type 0) : Type 0 where
  pub watches_return : (s : Netsocket) → IsWatched closes s → P (ways.returns s)
  pub watches_invoke :
      (event : Event) (s : Netsocket) → IsWatched closes s → P (ways.invokes event s)
  pub watches_disconnect : (reason : Option Bytes) (s : Netsocket) → P (ways.disconnects reason s)
