-- ===== src/Pipe/Connects.antt =====
-- pipe.c: the connection to the remote host, which `scallback` makes for a front end that has
-- become connected.
use libc_jss.Base.{
  ◌==◌, if◌then◌else◌, Bool-cases, Bytes, codes, ℤ, pos, ℕ, ◌≡◌, refl, sym, subst, ◌∙◌, inl, inr,
  Bool, true, false, Option, none, some, List, [], arith,
}
use libc_jss.Netsocket.{
  client, dir_out, event_disconnect, event_connect, Netsocket, touch, netsocket_destroy,
  netsocket_new, enter_callback, leave_callback, netsocket_disconnect,
}
use libc_jss.Netsocket.Start.{
  System, einprogress, as_sock, port_invalid, connect_to, connect_found, netsocket_connect,
}
use libc_jss.Netsocket.Part.{invoke_callback, disconnect}
use libc_jss.Pipe.{
  paired, Pair, front_end, back_end, Remote, ccallback, scallback, connect_back, new_back, end,
}
use libc_jss.Pipe.Alive.{
  Alive, Closed, enter-Alive, destroy_inside, leave-Alive, leave-Closed, leave-w_out,
  disconnect_quietly-Alive,
}
use libc_jss.Pipe.Closes.{Kept, Stands, joined, over, dies}

-- A pair with the same flags and lists.
abbrev pub Same : Pair → Pair → Type 0
Same p q =
    (q.joined ≡ p.joined)
    × (q.wild ≡ p.wild)
    × (q.read_front ≡ p.read_front)
    × (q.read_back ≡ p.read_back)
    × (q.exited ≡ p.exited)

-- While the front end is in the callback of its connect event: both ends live, or the connection
-- has failed with an event, and the destroy of the front end is put off.
pub data Tried (p q : Pair) : Type 0 where
  trying :
      Same p q
      → Alive 1 false true true [] q.front
      → q.front.w_out ≡ false
      → (o : Bool) → Alive 0 false false o [] q.back
      → Tried p q
  failed : Same p q → Alive 1 true true true [] q.front → Closed [] q.back → Tried p q

has_sock : (socket : Option ℕ) → libc_jss.Netsocket.is_open (as_sock socket) ≡ true
has_sock none = refl
has_sock (some n) = refl

Tried_from : (p p' q : Pair) → Same p p' → Tried p' q → Tried p q
Tried_from p p' q h (trying k front no_output o back) =
    trying (k.0 ∙ h.0, k.1 ∙ h.1, k.2 ∙ h.2, k.3 ∙ h.3, k.4 ∙ h.4) front no_output o back
Tried_from p p' q h (failed k front back) =
    failed (k.0 ∙ h.0, k.1 ∙ h.1, k.2 ∙ h.2, k.3 ∙ h.3, k.4 ∙ h.4) front back

Tried_choice :
    (b : Bool) (p : Pair) (x y : Pair × ℤ)
    → Tried p x.0
    → Tried p y.0
    → Tried p (if b then x else y).0
Tried_choice true p x y h k = h
Tried_choice false p x y h k = k

Kept-none : (o : Bool) (read : List Bytes) → read ≡ [] → Kept o [] read
Kept-none true read e = sym e
Kept-none false read e = refl

module _ (sys : System) where
  connect_to-Alive :
      (ip : Bytes) (s : Netsocket)
      → Alive 0 false false false [] s
      → (o : Bool) × Alive 0 false false o [] (connect_to sys ip s).0
  unfolding connect_to
  connect_to-Alive ip s h =
      let t = record s {
        hostent = true;
        ip = ip;
        sock = as_sock sys.socket;
        w_in = true;
        w_out = true;
        w_connect_timeout = true;
      } in
      let started : Alive 0 false false true [] t = record {
        not_freed = h.not_freed;
        depth = h.depth;
        asked = h.asked;
        is_connected = h.is_connected;
        opened = has_sock sys.socket;
        said = h.said;
        is_client = h.is_client;
        quiet = λ k. absurd (ground (arith, k));
      } in
      elim (Bool-cases (sys.errno == einprogress)) [
        | inl e ↦ (true, rw e started)
        | inr e ↦
            (false, rw e (disconnect_quietly-Alive (some (sys.strerror (pos sys.errno))) t started))
      ]

  disconnect-failed :
      (reason : Option Bytes) (p : Pair)
      → Alive 1 false true true [] p.front
      → Alive 0 false false false [] p.back
      → Tried p (disconnect (end back_end) (ccallback sys.send) reason p)
  unfolding disconnect invoke_callback ccallback
  disconnect-failed reason p front back =
      failed (refl, refl, refl, refl, refl) (destroy_inside p.front front 0 refl)
        (dies reason p.back back)

  connect_found-Tried :
      (found : Option Bytes) (s : Netsocket) (p : Pair)
      → Alive 1 false true true [] p.front
      → p.front.w_out ≡ false
      → Alive 0 false false false [] s
      → Tried p (connect_found (paired (ccallback sys.send) back_end p) sys found s).0
  unfolding connect_found
  connect_found-Tried none s p front no_output back =
      Tried_from p _ _ (refl, refl, refl, refl, refl)
        (disconnect-failed (some (codes "Host not found"))
          (record p { back = record s { hostent = false } }) front back)
  connect_found-Tried (some ip) s p front no_output back =
      let (o, live) = connect_to-Alive ip s back in
      trying (refl, refl, refl, refl, refl) front no_output o live

  connect_back-Tried :
      (p : Pair)
      → Alive 1 false true true [] p.front
      → p.front.w_out ≡ false
      → Alive 0 false false false [] p.back
      → Tried p (connect_back sys p)
  unfolding connect_back netsocket_connect
  connect_back-Tried p front no_output back =
      let s = record (touch p.back) { mode = client; direction = dir_out } in
      let p' = record p { back = s } in
      let live : Alive 0 false false false [] s = record {
        not_freed = back.not_freed;
        depth = back.depth;
        asked = back.asked;
        is_connected = back.is_connected;
        opened = back.opened;
        said = back.said;
        is_client = refl;
        quiet = back.quiet;
      } in
      Tried_choice (port_invalid p.back.port) p _ _
        (Tried_from p p' _ (refl, refl, refl, refl, refl)
          (disconnect-failed (some (codes "Invalid port")) p' front live))
        (connect_found-Tried sys.lookup s p front no_output live)

-- The pair once the front end has left the callback.
abbrev left : Pair → Pair
left q = record q { front = leave_callback q.front }

settled :
    (p q : Pair)
    → p.joined ≡ true
    → p.wild ≡ false
    → p.exited ≡ false
    → p.read_front ≡ []
    → p.read_back ≡ []
    → Tried p q
    → Stands (left q)
settled p q j w x rf rb (trying same front no_output o back) = joined record {
  tame = same.1 ∙ w;
  runs = same.4 ∙ x;
  has_back = same.0 ∙ j;
  front =
      subst (λ ws. Alive 0 false true true ws (leave_callback q.front)) (sym (same.3 ∙ rb))
        (leave-Alive q.front front);
  no_output = leave-w_out q.front front ∙ no_output;
  connected = false;
  opened = o;
  words = [];
  back = back;
  kept = Kept-none o q.read_front (same.2 ∙ rf);
}
settled p q j w x rf rb (failed same front back) = over record {
  tame = same.1 ∙ w;
  runs = same.4 ∙ x;
  has_back = same.0 ∙ j;
  words = [];
  front =
      subst (λ ws. Closed ws (leave_callback q.front)) (sym (same.3 ∙ rb))
        (leave-Closed q.front front);
  back = back;
  kept = inr refl;
}

-- The connect event of a front end, which is still without a back end.
pub connected-Stands :
    (remote : Remote) (sys : System) (p : Pair)
    → p.wild ≡ false
    → p.exited ≡ false
    → p.read_front ≡ []
    → p.read_back ≡ []
    → Alive 0 false true true [] p.front
    → p.front.w_out ≡ false
    → Stands (invoke_callback (end front_end) (scallback remote sys) event_connect p)
unfolding invoke_callback scallback
connected-Stands remote sys p w x rf rb front no_output =
    let s = touch (enter_callback event_connect p.front) in
    let p' = record p { front = s; back = new_back remote; joined = true } in
    let back : Alive 0 false false false [] (new_back remote) = record {
      not_freed = refl;
      depth = refl;
      asked = refl;
      is_connected = refl;
      opened = refl;
      said = refl;
      is_client = refl;
      quiet = λ k. refl;
    } in
    settled p' (connect_back sys p') refl w x rf rb
      (connect_back-Tried sys p' (enter-Alive p.front front event_connect) no_output back)
