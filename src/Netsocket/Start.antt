-- ===== src/Netsocket/Start.antt =====
-- netsocket.c: `netsocket_connect`, `netsocket_listen` and `sock_accept`. The answers of the system
-- are an argument. `obj->host == NULL` compares an array, and never holds.
use libc_jss.Base.{
  ltb, ◌==◌, if◌then◌else◌, length, take, Bytes, codes, ℤ, pos, negsuc, ℕ, Bool, true, false, not,
  ◌||◌, Option, none, some, [],
}
use libc_jss.Netsocket.{
  Sock, bad_sock, fd, client, server, dir_in, dir_out, Netsocket, Ways, touch, netsocket_disconnect,
  netsocket_new,
}

-- `lookup` is the first address that `gethostbyname` gives, as a text; `socket` and `accept` give
-- `none` for -1 and `some n` for the descriptor `n + 1`; `errno` is its value behind `connect`.
pub record System : Type 0 where
  pub lookup : Option Bytes
  pub socket : Option ℕ
  pub errno : ℕ
  pub strerror : ℤ → Bytes
  pub setsockopt_failed : Bool
  pub bind_failed : Bool
  pub listen_failed : Bool
  pub send : ℤ
  pub accept : Option ℕ
  pub peer_name : Option Bytes
  pub peer_ip : Bytes
  pub peer_port : ℕ

abbrev pub einprogress : ℕ
einprogress = 115

abbrev pub as_sock : Option ℕ → Sock
as_sock none = bad_sock
as_sock (some n) = fd n

-- `port < 1 || port > 65535`
abbrev pub port_invalid : ℤ → Bool
port_invalid (pos n) = ltb n 1 || ltb 65535 n
port_invalid (negsuc n) = true

-- From `socket` on, with the address that was found.
unfoldable pub connect_to : System → Bytes → Netsocket → Netsocket × ℤ
connect_to sys ip s =
    let s' = record s {
      hostent = true;
      ip = ip;
      sock = as_sock sys.socket;
      w_in = true;
      w_out = true;
      w_connect_timeout = true;
    } in
    if not (sys.errno == einprogress)
    then (netsocket_disconnect (some (sys.strerror (pos sys.errno))) s', negsuc 0)
    else (s', pos 0)

unfoldable pub connect_found : {W : Type 0} → Ways W → System → Option Bytes → Netsocket → W × ℤ
unfolding connect_to
connect_found ways sys none s =
    (ways.disconnects (some (codes "Host not found")) (record s { hostent = false }), negsuc 0)
connect_found ways sys (some ip) s = let r = connect_to sys ip s in (ways.returns r.0, r.1)

unfoldable pub netsocket_connect : {W : Type 0} → Ways W → System → Netsocket → W × ℤ
unfolding connect_found
netsocket_connect ways sys s =
    let s' = record (touch s) { mode = client; direction = dir_out } in
    if port_invalid s'.port
    then (ways.disconnects (some (codes "Invalid port")) s', negsuc 0)
    else connect_found ways sys sys.lookup s'

-- From `socket` on; the timer is not started.
unfoldable pub listen_on : {W : Type 0} → Ways W → System → Bytes → Netsocket → W × ℤ
listen_on ways sys ip s =
    let s' = record s { hostent = true; ip = ip; sock = as_sock sys.socket } in
    if sys.setsockopt_failed
    then (ways.returns s', negsuc 0)
    else if sys.bind_failed
    then (ways.disconnects (some (codes "Error on bind()")) s', negsuc 0)
    else if sys.listen_failed
    then (ways.disconnects (some (codes "Error on listen()")) s', negsuc 0)
    else (ways.returns (record s' { w_in = true; w_out = true }), pos 0)

unfoldable pub listen_found : {W : Type 0} → Ways W → System → Option Bytes → Netsocket → W × ℤ
unfolding listen_on
listen_found ways sys none s = (
  ways.disconnects (some (codes "Local host not found")) (record s { hostent = false }),
  negsuc 0,
)
listen_found ways sys (some ip) s = listen_on ways sys ip s

unfoldable pub netsocket_listen : {W : Type 0} → Ways W → System → Netsocket → W × ℤ
unfolding listen_found
netsocket_listen ways sys s =
    let s' = record (touch s) {
      mode = server;
      lhost = if length s.lhost == 0 then codes "0.0.0.0" else s.lhost;
    } in
    if port_invalid s'.lport
    then (ways.disconnects (some (codes "Invalid local port")) s', negsuc 0)
    else listen_found ways sys sys.lookup s'

-- The name of the peer, unless the lookup is disabled or finds none.
abbrev pub peer_host : Bool → System → Option Bytes
peer_host disabled sys = if disabled then none else sys.peer_name

abbrev pub named : Option Bytes → Bytes
named none = []
named (some name) = take 127 name

-- The child object, on the descriptor `n + 1`.
unfoldable pub child_of : System → Netsocket → ℕ → Netsocket
child_of sys parent n =
    let found = peer_host parent.disable_lookup_on_accept sys in
    let name = named found in
    record (netsocket_new parent.callback parent.userdata) {
      mode = client;
      direction = dir_in;
      sock = fd n;
      hostent = elim found [ none ↦ false | some h ↦ true ];
      host = if length name == 0 then sys.peer_ip else name;
      ip = sys.peer_ip;
      port = pos sys.peer_port;
      w_in = true;
      w_out = true;
      has_parent = true;
      lhost = parent.lhost;
      lport = parent.lport;
    }

-- The child of an accepted connection, or `none` where `accept` fails and the child is destroyed.
unfoldable pub sock_accept : System → Netsocket → Option Netsocket
unfolding child_of
sock_accept sys parent = elim sys.accept [ none ↦ none | some n ↦ some (child_of sys parent n) ]
