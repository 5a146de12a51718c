-- ===== src/Pipe/Turns.antt =====
-- pipe.c: what each turn of the event loop makes of a pair.
use libc_jss.Base.{
  if_true, if_false, Bytes, codes, ℕ, ◌≡◌, refl, sym, ap, subst, ◌∙◌, true, false, not, ◌||◌,
  Option, some, [], arith,
}
use libc_jss.Netsocket.{Netsocket, touch}
use libc_jss.Netsocket.Start.{System, child_of}
use libc_jss.Netsocket.Handlers.{
  Readiness, sockerr, is_zero, is_server, w_out_cb, w_connect_timeout_cb,
}
use libc_jss.Netsocket.Turns.{sock_accept_child, w_in_cb-receive}
use libc_jss.Netsocket.Part.{closing, invoke_callback, disconnect}
use libc_jss.Pipe.{
  paired, put, Pair, End, front_end, back_end, at, Remote, scallback, input_at, output_at,
  timeout_at, end,
}
use libc_jss.Pipe.Program.{Turn, Reachable, accepted, next, by_input, by_output, by_timeout}
use libc_jss.Pipe.Alive.{Alive, IsOff, closing-Alive}
use libc_jss.Pipe.Closes.{
  Over, Joined, Waiting, Stands, joined, over, waiting, has_exited, disconnect-Over,
}
use libc_jss.Pipe.Connects.{connected-Stands}
use libc_jss.Pipe.Ongoing.{
  Stands_choice, stopped-Alive, connected-Alive, input_at-Joined, output_at-Joined,
}

module _ (remote : Remote) (sys : System) where
  exits :
      (reason : Option Bytes) (p : Pair)
      → Alive 0 false false true [] p.front
      → p.joined ≡ false
      → Stands (disconnect (end front_end) (scallback remote sys) reason p)
  unfolding disconnect invoke_callback scallback
  exits reason p h j =
      let shut = closing-Alive p.front h reason in
      let out =
        if_true (not (closing reason p.front).connected) _ _ (ground (arith, shut.is_connected)) in
      has_exited (ap (λ (q : Pair). q.exited) out) (ap (λ (q : Pair). q.joined) out ∙ j)

  input_at-Waiting :
      (r : Readiness) (p : Pair)
      → Waiting p
      → Stands (input_at (scallback remote sys) front_end sys r p)
  unfolding input_at
  input_at-Waiting r p h =
      let client : is_server p.front.mode ≡ false = ground (arith, h.front.is_client) in
      let idle : p.front.connected ≡ false = ground (arith, h.front.is_connected) in
      let unread =
        w_in_cb-receive (paired (scallback remote sys) front_end p) sys r p.front client
        ∙ if_false p.front.connected _ _ idle in
      subst Stands (sym unread) (
        waiting record {
          tame = h.tame;
          runs = h.runs;
          no_back = h.no_back;
          front = h.front;
          back = h.back;
          no_read = h.no_read;
        })

  output_at-Waiting :
      (r : Readiness) (p : Pair)
      → Waiting p
      → Stands (output_at (scallback remote sys) front_end sys r p)
  unfolding output_at w_out_cb
  output_at-Waiting r p h =
      let s = record (touch p.front) { err = sockerr r; w_out = false } in
      let t = record s { connected = true; w_connect_timeout = false } in
      let live = stopped-Alive (sockerr r) p.front h.front in
      Stands_choice (not (is_zero (sockerr r))) _ _
        (exits (some (sys.strerror (sockerr r))) (record p { front = s }) live h.no_back)
        (connected-Stands remote sys (record p { front = t }) h.tame h.runs h.no_read.0 h.no_read.1
          (connected-Alive s live) refl)

-- A turn of an end whose watchers are all off does not happen.
inactive :
    {A : Type 0} (s : Netsocket) → IsOff s → (s.w_in || s.w_out || s.w_connect_timeout) ≡ true → A
inactive s h e = absurd (ground (arith, h, e))

IsOff-at : (e : End) (p : Pair) → Over p → IsOff (at e p)
IsOff-at front_end p h = h.front.2
IsOff-at back_end p h = h.back.2

no_more :
    {A : Type 0} (e : End) (p : Pair)
    → Over p
    → (let s = at e p in s.w_in || s.w_out || s.w_connect_timeout) ≡ true
    → A
no_more e p h k = inactive (at e p) (IsOff-at e p h) k

put-at : (e : End) (p : Pair) → put e (at e p) p ≡ p
put-at front_end p = refl
put-at back_end p = refl

Turn-Stands : (remote : Remote) (p q : Pair) → Stands p → Turn remote p q → Stands q
unfolding timeout_at w_connect_timeout_cb
Turn-Stands remote _ _ (has_exited k j) (by_input e sys r p n a) = absurd (ground (arith, k, n))
Turn-Stands remote _ _ (has_exited k j) (by_output e sys r p n a) = absurd (ground (arith, k, n))
Turn-Stands remote _ _ (has_exited k j) (by_timeout e sys p n a) = absurd (ground (arith, k, n))
Turn-Stands remote _ _ (over h) (by_input e sys r p n a) = no_more e p h (ground (arith, a))
Turn-Stands remote _ _ (over h) (by_output e sys r p n a) = no_more e p h (ground (arith, a))
Turn-Stands remote _ _ (over h) (by_timeout e sys p n a) = no_more e p h (ground (arith, a))
Turn-Stands remote _ _ (waiting h) (by_input front_end sys r p n a) =
    input_at-Waiting remote sys r p h
Turn-Stands remote _ _ (waiting h) (by_output front_end sys r p n a) =
    output_at-Waiting remote sys r p h
Turn-Stands remote _ _ (waiting h) (by_timeout front_end sys p n a) =
    exits remote sys (some (codes "Connection timed out")) p h.front h.no_back
Turn-Stands remote _ _ (waiting h) (by_input back_end sys r p n a) =
    inactive p.back h.back (ground (arith, a))
Turn-Stands remote _ _ (waiting h) (by_output back_end sys r p n a) =
    inactive p.back h.back (ground (arith, a))
Turn-Stands remote _ _ (waiting h) (by_timeout back_end sys p n a) =
    inactive p.back h.back (ground (arith, a))
Turn-Stands remote _ _ (joined h) (by_input e sys r p n a) = input_at-Joined remote sys e r p h
Turn-Stands remote _ _ (joined h) (by_output front_end sys r p n a) =
    absurd (ground (arith, h.no_output, a))
Turn-Stands remote _ _ (joined h) (by_output back_end sys r p n a) =
    output_at-Joined remote sys r p h
Turn-Stands remote _ _ (joined h) (by_timeout e sys p n a) = over (
    disconnect-Over remote sys e (some (codes "Connection timed out")) (put e (at e p) p)
      (subst Joined (sym (put-at e p)) h))

child_of-Alive :
    (sys : System) (server : Netsocket) (n : ℕ)
    → Alive 0 false false true [] (child_of sys server n)
unfolding child_of
child_of-Alive sys server n = record {
  not_freed = refl;
  depth = refl;
  asked = refl;
  is_connected = refl;
  opened = refl;
  said = refl;
  is_client = refl;
  quiet = λ k. absurd (ground (arith, k));
}

pub Reachable-Stands : (remote : Remote) (p : Pair) → Reachable remote p → Stands p
Reachable-Stands remote _ (accepted sys server child e) =
    let (n, k) = sock_accept_child sys server child e in
    waiting record {
      tame = refl;
      runs = refl;
      no_back = refl;
      front = subst (Alive 0 false false true []) (sym k) (child_of-Alive sys server n);
      back = refl;
      no_read = (refl, refl);
    }
Reachable-Stands remote _ (next p q r turn) =
    Turn-Stands remote p q (Reachable-Stands remote p r) turn
