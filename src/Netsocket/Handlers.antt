-- ===== src/Netsocket/Handlers.antt =====
-- netsocket.c: what the event loop calls, `w_in_cb`, `w_out_cb` and `w_connect_timeout_cb`.
use libc_jss.Base.{
  ◌==◌, if◌then◌else◌, length, take, Bytes, codes, ℤ, pos, negsuc, ℕ, Bool, true, false, not,
  Option, none, some, [], ◌∷◌,
}
use libc_jss.Netsocket.{
  Mode, mode_unset, client, server, event_connect, event_read, Netsocket, Ways, touch,
}
use libc_jss.Netsocket.Start.{System, sock_accept}

-- The answers of `read` and `getsockopt`: the bytes that have arrived, or `errno` where `read`
-- fails, and the error of the socket, or -1 where `getsockopt` fails.
pub record Readiness : Type 0 where
  pub arrived : Option Bytes
  pub errno : ℤ
  pub getsockopt_failed : Bool
  pub so_error : ℕ

abbrev pub sockerr : Readiness → ℤ
sockerr r = if r.getsockopt_failed then negsuc 0 else pos r.so_error

abbrev pub is_zero : ℤ → Bool
is_zero (pos n) = n == 0
is_zero (negsuc n) = false

-- `read` gives 1024 bytes at most, and none of them at the end of the stream.
unfoldable pub receive : {W : Type 0} → Ways W → System → Readiness → Option Bytes → Netsocket → W
receive ways sys r none s = ways.disconnects (some (sys.strerror r.errno)) s
receive ways sys r (some []) s = ways.disconnects (some (codes "Connection reset by peer")) s
receive ways sys r (some (c ∷ rest)) s =
    let got = take 1024 (c ∷ rest) in
    ways.invokes event_read (record s { inbuf = got; inbuf_len = length got })

-- `obj->mode == NETSOCKET_SERVER`
abbrev pub is_server : Mode → Bool
is_server server = true
is_server client = false
is_server mode_unset = false

-- The object, and the child if a connection was accepted.
unfoldable pub w_in_cb :
    {W : Type 0} → Ways W → System → Readiness → Netsocket → W × Option Netsocket
unfolding receive
w_in_cb ways sys r s =
    if is_server s.mode
    then (ways.returns (touch s), sock_accept sys s)
    else if not s.connected
    then (ways.returns (touch s), none)
    else (receive ways sys r r.arrived (touch s), none)

unfoldable pub w_out_cb : {W : Type 0} → Ways W → System → Readiness → Netsocket → W
w_out_cb ways sys r s =
    let s' = record (touch s) { err = sockerr r; w_out = false } in
    if not (is_zero s'.err)
    then ways.disconnects (some (sys.strerror s'.err)) s'
    else ways.invokes event_connect (record s' { connected = true; w_connect_timeout = false })

unfoldable pub w_connect_timeout_cb : {W : Type 0} → Ways W → Netsocket → W
w_connect_timeout_cb ways s = ways.disconnects (some (codes "Connection timed out")) s
