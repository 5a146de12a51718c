-- ===== src/Netsocket.antt =====
-- netsocket.c: the object `netsocket_t`, its closing, and what can be done to it without the event
-- loop. One object is followed; its fields keep their names, and three more record what the code
-- does to memory and to its surroundings: `freed` after `free(obj)`, `misused` once a freed object
-- is read or written, and `log`, the latest effect first. A watcher is active or not. The strings
-- in the arrays are lists of bytes. The user's callback is a function on the object. A `NULL`
-- object, for which `disconnect` and `netsocket_destroy` return at once, is not followed.
pub mod Start
pub mod Handlers
pub mod Script
pub mod Part
pub mod World
pub mod Inside
pub mod Calls
pub mod Turns
pub mod Fine
pub mod Runs
pub mod Safety
pub mod Opened
pub mod Watched
pub mod Watching
pub mod Attempts
mod Samples
mod Examples
use libc_jss.Base.{
  ltb, leb, ◌==◌, if◌then◌else◌, ltb→lt, lt→ltb, le_of_not_ltb, leb→le, ==_iff, Bool-cases,
  Option-cases, length, get_or, set, take, drop, replicate, reverse_onto, take_while, drop_while,
  keep_if, length-append, length-set, length-take, length-drop, length-replicate, take-append-drop,
  take_all, take_while-append-drop_while, length-drop_while-le, length-keep_if-le, get_or-append,
  set-append, nil_of_length, length_snoc, get_or-drop, drop_next, get_or_behind, take-append_left,
  take_middle, Bytes, codes, cstr, strlen, IsText, contains, starts_with, str_eq, cstr_text,
  strlen_text, cstr-IsText, cstr_idem, append-IsText, take-IsText, strncpy, cstr_front,
  get_or-strncpy, decimal, decimal_injective, length-decimal-le, ℤ, pos, negsuc, ℕ, zero, suc, ◌+◌,
  ◌-◌, ◌*◌, ◌/◌, ◌%◌, ◌^◌, ◌≤◌, ◌<◌, min, ◌≡◌, refl, sym, ap, ap₂, subst, subst₂, ◌∙◌, ◌≡⟨◌⟩◌, ◌∎,
  ◌≢◌, ◌↔◌, ◌⊎◌, inl, inr, Bool, true, false, not, ◌&&◌, ◌||◌, Option, none, some, List, [], ◌∷◌,
  ◌++◌, map, reverse, append-nil, append_assoc, arith,
}

-- The `int` of a descriptor: 0, which the code takes for none, -1, or `n + 1`. Standard input is
-- taken to be open, so that the system never gives 0 to a socket.
pub data Sock : Type 0 where
  no_sock : Sock
  bad_sock : Sock
  fd : ℕ → Sock

abbrev pub is_open : Sock → Bool
is_open no_sock = false
is_open bad_sock = true
is_open (fd n) = true

pub data Mode : Type 0 where
  mode_unset : Mode
  client : Mode
  server : Mode

pub data Direction : Type 0 where
  direction_unset : Direction
  dir_in : Direction
  dir_out : Direction

pub data Event : Type 0 where
  event_error : Event
  event_connect : Event
  event_read : Event
  event_disconnect : Event

-- A call of the callback, with `connected` at that time, or bytes given to `send`.
pub data Effect : Type 0 where
  called : Event → Bool → Effect
  sent : Bytes → Effect

pub record Netsocket : Type 0 where
  pub host : Bytes
  pub port : ℤ
  pub lhost : Bytes
  pub lport : ℤ
  pub connect_timeout : ℕ
  pub ip : Bytes
  pub sock : Sock
  pub hostent : Bool
  pub inbuf : Bytes
  pub inbuf_len : ℕ
  pub w_in : Bool
  pub w_out : Bool
  pub w_connect_timeout : Bool
  pub callback : ℕ
  pub userdata : ℕ
  pub err : ℤ
  pub disconnect_reason : Bytes
  pub connected : Bool
  pub mode : Mode
  pub has_parent : Bool
  pub direction : Direction
  pub destroy_request : Bool
  pub in_callback : ℕ
  pub disable_lookup_on_accept : Bool
  pub freed : Bool
  pub misused : Bool
  pub log : List Effect

-- An access to the object.
abbrev pub touch : Netsocket → Netsocket
touch s = record s { misused = s.misused || s.freed }

unfoldable pub sock_close : Netsocket → Netsocket
sock_close s =
    if not (is_open s.sock)
    then s
    else record s { w_in = false; w_out = false; w_connect_timeout = false; sock = no_sock }

-- `strncpy(obj->disconnect_reason, reason, sizeof(obj->disconnect_reason) - 1)`
unfoldable pub save_reason : Option Bytes → Netsocket → Netsocket
save_reason none s = s
save_reason (some reason) s = record s { disconnect_reason = take 127 reason }

-- `disconnect` with `ignore_callback` set
unfoldable pub disconnect_quietly : Option Bytes → Netsocket → Netsocket
unfolding sock_close save_reason
disconnect_quietly reason s = record (save_reason reason (sock_close (touch s))) {
  connected = false;
}

unfoldable pub netsocket_destroy : Netsocket → Netsocket
netsocket_destroy s =
    let s' = touch s in
    if ltb 0 s.in_callback
    then record s' { destroy_request = true }
    else record (disconnect_quietly none s') { freed = true }

-- What `invoke_callback` does behind the call of the user's function.
unfoldable pub leave_callback : Netsocket → Netsocket
unfolding netsocket_destroy
leave_callback s =
    let s' = record (touch s) { in_callback = s.in_callback - 1 } in
    if s'.destroy_request && s'.in_callback == 0 then netsocket_destroy s' else s'

-- What it does in front of the call.
abbrev pub enter_callback : Event → Netsocket → Netsocket
enter_callback event s = record (touch s) {
  in_callback = s.in_callback + 1;
  log = called event s.connected ∷ s.log;
}

-- `netsocket_disconnect`
abbrev pub netsocket_disconnect : Option Bytes → Netsocket → Netsocket
netsocket_disconnect reason s = disconnect_quietly reason s

abbrev pub netsocket_disable_lookup_on_accept : Netsocket → Netsocket
netsocket_disable_lookup_on_accept s = record (touch s) { disable_lookup_on_accept = true }

abbrev pub set_host : Option Bytes → Netsocket → Netsocket
set_host none s = s
set_host (some host) s = record (touch s) { host = take 127 host }

abbrev pub set_lhost : Option Bytes → Netsocket → Netsocket
set_lhost none s = s
set_lhost (some lhost) s = record (touch s) { lhost = take 127 lhost }

abbrev pub set_port : ℤ → Netsocket → Netsocket
set_port port s = record (touch s) { port = port }

abbrev pub set_lport : ℤ → Netsocket → Netsocket
set_lport lport s = record (touch s) { lport = lport }

abbrev pub netsocket_is_connected : Netsocket → Bool
netsocket_is_connected s = s.connected

-- `send` returns what the system says; the data and its length are the caller's.
unfoldable pub netsocket_write : ℤ → Bytes → Netsocket → Netsocket × ℤ
netsocket_write answer bytes s =
    if not (is_open s.sock)
    then (touch s, pos 0)
    else (record (touch s) { log = sent bytes ∷ s.log }, answer)

-- The text is what the format gives; `vsnprintf` cuts it to 8190 bytes.
abbrev pub netsocket_printf : ℤ → Bytes → Netsocket → Netsocket × ℤ
netsocket_printf answer formatted s = netsocket_write answer (take 8190 formatted) s

-- The ways in which a function of netsocket.c ends, for an object that is a part of a state `W`: it
-- returns, or its last act on the object is the call of `invoke_callback` or of `disconnect`.
pub record Ways (W : Type 0) : Type 0 where
  pub returns : Netsocket → W
  pub invokes : Event → Netsocket → W
  pub disconnects : Option Bytes → Netsocket → W

abbrev pub netsocket_disconnect_withevent : {W : Type 0} → Ways W → Option Bytes → Netsocket → W
netsocket_disconnect_withevent ways reason s = ways.disconnects reason s

-- `netsocket_new`, where `malloc` succeeds
abbrev pub netsocket_new : ℕ → ℕ → Netsocket
netsocket_new callback userdata = record {
  host = [];
  port = pos 0;
  lhost = [];
  lport = pos 0;
  connect_timeout = 5000;
  ip = [];
  sock = no_sock;
  hostent = false;
  inbuf = [];
  inbuf_len = 0;
  w_in = false;
  w_out = false;
  w_connect_timeout = false;
  callback = callback;
  userdata = userdata;
  err = pos 0;
  disconnect_reason = [];
  connected = false;
  mode = mode_unset;
  has_parent = false;
  direction = direction_unset;
  destroy_request = false;
  in_callback = 0;
  disable_lookup_on_accept = false;
  freed = false;
  misused = false;
  log = [];
}
