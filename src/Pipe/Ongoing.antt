-- ===== src/Pipe/Ongoing.antt =====
-- pipe.c: what a turn of one end makes of a pair that is joined.
use libc_jss.Base.{
  if◌then◌else◌, take, Bytes, codes, ℤ, ◌≡◌, refl, sym, subst, Bool, true, false, not, Option, none,
  some, List, [], ◌∷◌, arith,
}
use libc_jss.Netsocket.{event_connect, Netsocket, touch, enter_callback, leave_callback}
use libc_jss.Netsocket.Start.{System}
use libc_jss.Netsocket.Handlers.{Readiness, sockerr, is_zero, is_server, receive, w_out_cb}
use libc_jss.Netsocket.Turns.{w_in_cb-receive}
use libc_jss.Netsocket.Part.{invoke_callback}
use libc_jss.Pipe.{
  Pair, End, front_end, back_end, at, put, Remote, ccallback, callback_of, input_at, output_at, end,
  paired,
}
use libc_jss.Pipe.Alive.{Alive, enter-Alive, leave-Alive}
use libc_jss.Pipe.Closes.{Joined, Stands, joined, over, disconnect-Over}
use libc_jss.Pipe.Passes.{passed-Joined}

pub Stands_choice : (b : Bool) (p q : Pair) → Stands p → Stands q → Stands (if b then p else q)
Stands_choice true p q h k = h
Stands_choice false p q h k = k

-- A live object's output watcher is stopped, or its timer.
pub stopped-Alive :
    {c o : Bool} {words : List Bytes} (err : ℤ) (s : Netsocket)
    → Alive 0 false c o words s
    → Alive 0 false c o words (record (touch s) { err = err; w_out = false })
stopped-Alive err s h = record {
  not_freed = h.not_freed;
  depth = h.depth;
  asked = h.asked;
  is_connected = h.is_connected;
  opened = h.opened;
  said = h.said;
  is_client = h.is_client;
  quiet = λ k. ground (arith, h.quiet k);
}

pub connected-Alive :
    {c o : Bool} {words : List Bytes} (s : Netsocket)
    → Alive 0 false c o words s
    → Alive 0 false true o words (record s { connected = true; w_connect_timeout = false })
connected-Alive s h = record {
  not_freed = h.not_freed;
  depth = h.depth;
  asked = h.asked;
  is_connected = refl;
  opened = h.opened;
  said = h.said;
  is_client = h.is_client;
  quiet = λ k. ground (arith, h.quiet k);
}

module _ (p : Pair) (h : Joined p) where
  other_front :
      (s : Netsocket)
      → Alive 0 false true true p.read_back s
      → s.w_out ≡ false
      → Joined (record p { front = s })
  other_front s live no_output = record {
    tame = h.tame;
    runs = h.runs;
    has_back = h.has_back;
    front = live;
    no_output = no_output;
    connected = h.connected;
    opened = h.opened;
    words = h.words;
    back = h.back;
    kept = h.kept;
  }

  other_back :
      (c : Bool) (s : Netsocket)
      → Alive 0 false c h.opened h.words s
      → Joined (record p { back = s })
  other_back c s live = record {
    tame = h.tame;
    runs = h.runs;
    has_back = h.has_back;
    front = h.front;
    no_output = h.no_output;
    connected = c;
    opened = h.opened;
    words = h.words;
    back = live;
    kept = h.kept;
  }

  touched-Joined : (e : End) → Joined (put e (touch (at e p)) p)
  touched-Joined front_end = other_front (touch p.front) h.front h.no_output
  touched-Joined back_end = other_back h.connected (touch p.back) h.back

  no_server : (e : End) → is_server (at e p).mode ≡ false
  no_server front_end = ground (arith, h.front.is_client)
  no_server back_end = ground (arith, h.back.is_client)

  -- The connect event of the back end, which `ccallback` only prints.
  told-Joined :
      (answer : ℤ) (s : Netsocket)
      → Alive 0 false true h.opened h.words s
      → Joined
          (invoke_callback (end back_end) (ccallback answer) event_connect (record p { back = s }))
  unfolding invoke_callback ccallback
  told-Joined answer s live =
      let entered = touch (enter_callback event_connect s) in
      other_back true (leave_callback entered)
        (leave-Alive entered (enter-Alive s live event_connect))

module _ (remote : Remote) (sys : System) where
  receive-Stands :
      (e : End) (r : Readiness) (arrived : Option Bytes) (s : Netsocket) (p : Pair)
      → Joined (put e s p)
      → Stands (receive (paired (callback_of remote sys e) e p) sys r arrived s)
  unfolding receive
  receive-Stands e r none s p h =
      over (disconnect-Over remote sys e (some (sys.strerror r.errno)) (put e s p) h)
  receive-Stands e r (some []) s p h =
      over (disconnect-Over remote sys e (some (codes "Connection reset by peer")) (put e s p) h)
  receive-Stands front_end r (some (c ∷ rest)) s p h =
      joined (passed-Joined remote sys front_end (take 1024 (c ∷ rest)) (put front_end s p) h)
  receive-Stands back_end r (some (c ∷ rest)) s p h =
      joined (passed-Joined remote sys back_end (take 1024 (c ∷ rest)) (put back_end s p) h)

  pub input_at-Joined :
      (e : End) (r : Readiness) (p : Pair)
      → Joined p
      → Stands (input_at (callback_of remote sys e) e sys r p)
  unfolding input_at
  input_at-Joined e r p h =
      let touched = touched-Joined p h e in
      subst Stands
        (sym (
          w_in_cb-receive (paired (callback_of remote sys e) e p) sys r (at e p) (no_server p h e)))
        (Stands_choice (at e p).connected _ _
          (receive-Stands e r r.arrived (touch (at e p)) p touched) (joined touched))

  pub output_at-Joined :
      (r : Readiness) (p : Pair)
      → Joined p
      → Stands (output_at (ccallback sys.send) back_end sys r p)
  unfolding output_at w_out_cb
  output_at-Joined r p h =
      let s = record (touch p.back) { err = sockerr r; w_out = false } in
      let t = record s { connected = true; w_connect_timeout = false } in
      let live = stopped-Alive (sockerr r) p.back h.back in
      Stands_choice (not (is_zero (sockerr r))) _ _
        (over (
          disconnect-Over remote sys back_end (some (sys.strerror (sockerr r)))
            (record p { back = s }) (other_back p h h.connected s live)))
        (joined (told-Joined p h sys.send t (connected-Alive s live)))
