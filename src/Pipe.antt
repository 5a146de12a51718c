-- ===== src/Pipe.antt =====
-- pipe.c: each connection that the server accepts is joined to one that is made to a remote host.
-- A pair of objects is followed: the front end is the child of the accepted connection, with
-- `scallback`, the back end the object that `scallback` makes for it, with `ccallback`; both callbacks
-- are functions on the whole pair. What is printed is left out.
pub mod Program
pub mod Alive
pub mod Closes
pub mod Connects
pub mod Passes
pub mod Ongoing
pub mod Turns
pub mod Safety
pub mod Clients
mod Examples
use libc_jss.Base.{
  ltb, leb, ◌==◌, if◌then◌else◌, if_true, if_false, ltb→lt, lt→ltb, le_of_not_ltb, leb→le, ==_iff,
  ==_refl, Bool-cases, Option-cases, length, get_or, set, take, drop, replicate, reverse_onto,
  take_while, drop_while, keep_if, length-append, length-set, length-take, length-drop,
  length-replicate, take-append-drop, take_all, take_while-append-drop_while, length-drop_while-le,
  length-keep_if-le, get_or-append, set-append, nil_of_length, length_snoc, get_or-drop, drop_next,
  get_or_behind, take-append_left, take_middle, Bytes, length-append_bytes, length-take_bytes,
  length-drop_bytes, length-replicate_bytes, codes, cstr, strlen, IsText, contains, starts_with,
  str_eq, cstr_text, strlen_text, cstr-IsText, cstr_idem, append-IsText, take-IsText, strncpy,
  cstr_front, get_or-strncpy, lengths, decimal, decimal_injective, length-decimal-le, ℤ, pos,
  negsuc, ℕ, zero, suc, ◌+◌, ◌-◌, ◌*◌, ◌/◌, ◌%◌, ◌^◌, ◌≤◌, ◌<◌, min, ◌≡◌, refl, sym, ap, ap₂, subst,
  subst₂, ◌∙◌, ◌≡⟨◌⟩◌, ◌∎, ◌≢◌, ◌↔◌, ◌⊎◌, inl, inr, Bool, true, false, not, ◌&&◌, ◌||◌, Option,
  none, some, List, [], ◌∷◌, ◌++◌, map, reverse, append-nil, append_assoc, arith,
}
use libc_jss.Netsocket.{
  Event, event_error, event_connect, event_read, event_disconnect, Netsocket, Ways, touch,
  netsocket_destroy, netsocket_write, netsocket_new, set_host, set_port,
}
use libc_jss.Netsocket.Start.{System, netsocket_connect}
use libc_jss.Netsocket.Handlers.{Readiness, w_in_cb, w_out_cb, w_connect_timeout_cb}
use libc_jss.Netsocket.Part.{Lens, invoke_callback, disconnect}

-- The front end's `userdata` is the back end once they are `joined`, and before that a string of
-- `main`; a use of that string as an object sets `wild`. `exited` stands for `exit(255)`. The two lists
-- are what `read` gave at each end, the latest first.
pub record Pair : Type 0 where
  pub front : Netsocket
  pub back : Netsocket
  pub joined : Bool
  pub wild : Bool
  pub exited : Bool
  pub read_front : List Bytes
  pub read_back : List Bytes

pub data End : Type 0 where
  front_end : End
  back_end : End

abbrev pub at : End → Pair → Netsocket
at front_end p = p.front
at back_end p = p.back

abbrev pub put : End → Netsocket → Pair → Pair
put front_end s p = record p { front = s }
put back_end s p = record p { back = s }

pub at-put : (e : End) (s : Netsocket) (p : Pair) → at e (put e s p) ≡ s
at-put front_end s p = refl
at-put back_end s p = refl

pub put-put : (e : End) (s t : Netsocket) (p : Pair) → put e s (put e t p) ≡ put e s p
put-put front_end s t p = refl
put-put back_end s t p = refl

abbrev pub end : End → Lens Pair
end e = record { at = at e; put = put e; at-put = at-put e; put-put = put-put e }

abbrev pub Handler : Type 0
Handler = Event → Pair → Pair

-- What was read is noted once the callback has been told of it.
abbrev pub note : Event → End → Bytes → Pair → Pair
note event_read front_end bytes p = record p { read_front = bytes ∷ p.read_front }
note event_read back_end bytes p = record p { read_back = bytes ∷ p.read_back }
note event_connect e bytes p = p
note event_disconnect e bytes p = p
note event_error e bytes p = p

-- The ways in which the functions of netsocket.c end on one end of a pair.
abbrev pub paired : Handler → End → Pair → Ways Pair
paired cb e p = record {
  returns = λ s. put e s p;
  invokes = λ event s. note event e s.inbuf (invoke_callback (end e) cb event (put e s p));
  disconnects = λ reason s. disconnect (end e) cb reason (put e s p);
}

-- `ccallback`, the callback of the back end; `answer` is what `send` returns.
unfoldable pub ccallback : ℤ → Handler
ccallback answer event_error p = p
ccallback answer event_connect p = record p { back = touch p.back }
ccallback answer event_disconnect p = record p {
  front = netsocket_destroy p.front;
  back = netsocket_destroy p.back;
}
ccallback answer event_read p = record p {
  back = touch p.back;
  front = (netsocket_write answer (take p.back.inbuf_len p.back.inbuf) p.front).0;
}

-- `netsocket_connect` of the back end
unfoldable pub connect_back : System → Pair → Pair
unfolding netsocket_connect disconnect ccallback
connect_back sys p = (netsocket_connect (paired (ccallback sys.send) back_end p) sys p.back).0

-- `host` and `port`
pub record Remote : Type 0 where
  pub host : Bytes
  pub port : ℤ

abbrev pub new_back : Remote → Netsocket
new_back remote = set_port remote.port (set_host (some remote.host) (netsocket_new 1 0))

-- `scallback`, the callback of the server and of the front end
unfoldable pub scallback : Remote → System → Handler
unfolding connect_back
scallback remote sys event_error p = p
scallback remote sys event_connect p =
    connect_back sys (record p { front = touch p.front; back = new_back remote; joined = true })
scallback remote sys event_disconnect p =
    if not p.front.connected then record p { exited = true } else record p {
      front = netsocket_destroy p.front;
      back = if p.joined then netsocket_destroy p.back else p.back;
      wild = p.wild || not p.joined;
    }
scallback remote sys event_read p = record p {
  front = touch p.front;
  back =
      if p.joined
      then (netsocket_write sys.send (take p.front.inbuf_len p.front.inbuf) p.back).0
      else p.back;
  wild = p.wild || not p.joined;
}

abbrev pub callback_of : Remote → System → End → Handler
callback_of remote sys front_end = scallback remote sys
callback_of remote sys back_end = ccallback sys.send

-- The handlers of an end. No end of a pair is a server, so that `w_in_cb` gives no child.
unfoldable pub input_at : Handler → End → System → Readiness → Pair → Pair
unfolding w_in_cb invoke_callback disconnect
input_at cb e sys r p = (w_in_cb (paired cb e p) sys r (at e p)).0

unfoldable pub output_at : Handler → End → System → Readiness → Pair → Pair
unfolding w_out_cb invoke_callback disconnect
output_at cb e sys r p = w_out_cb (paired cb e p) sys r (at e p)

unfoldable pub timeout_at : Handler → End → Pair → Pair
unfolding w_connect_timeout_cb disconnect
timeout_at cb e p = w_connect_timeout_cb (paired cb e p) (at e p)
