-- ===== src/Pipe/Closes.antt =====
-- pipe.c: the states of a pair between two turns, and the end of a pair: when one end is
-- disconnected, its callback destroys both.
use libc_jss.Base.{
  if◌then◌else◌, if_true, if_false, Bytes, ◌≡◌, refl, sym, ap₂, subst, ◌∙◌, ◌⊎◌, inl, inr, Bool,
  true, false, not, ◌||◌, Option, List, [], arith,
}
use libc_jss.Netsocket.{
  event_disconnect, Netsocket, touch, netsocket_destroy, enter_callback, leave_callback,
}
use libc_jss.Netsocket.Start.{System}
use libc_jss.Netsocket.Part.{closing, invoke_callback, disconnect}
use libc_jss.Pipe.{Pair, End, front_end, back_end, Remote, ccallback, scallback, callback_of, end}
use libc_jss.Pipe.Alive.{
  Alive, Closed, IsOff, enter-Alive, closing-Alive, destroy_inside, destroy-Closed, leave-Closed,
}

-- What the back end has sent: all that the front end has read, or nothing if it has no socket.
abbrev pub Kept : Bool → List Bytes → List Bytes → Type 0
Kept true words read = words ≡ read
Kept false words read = words ≡ []

pub record Joined (p : Pair) : Type 0 where
  pub tame : p.wild ≡ false
  pub runs : p.exited ≡ false
  pub has_back : p.joined ≡ true
  pub front : Alive 0 false true true p.read_back p.front
  pub no_output : p.front.w_out ≡ false
  pub connected : Bool
  pub opened : Bool
  pub words : List Bytes
  pub back : Alive 0 false connected opened words p.back
  pub kept : Kept opened words p.read_front

-- Both ends are freed.
pub record Over (p : Pair) : Type 0 where
  pub tame : p.wild ≡ false
  pub runs : p.exited ≡ false
  pub has_back : p.joined ≡ true
  pub words : List Bytes
  pub front : Closed p.read_back p.front
  pub back : Closed words p.back
  pub kept : (words ≡ p.read_front) ⊎ (words ≡ [])

-- The front end is not connected yet.
pub record Waiting (p : Pair) : Type 0 where
  pub tame : p.wild ≡ false
  pub runs : p.exited ≡ false
  pub no_back : p.joined ≡ false
  pub front : Alive 0 false false true [] p.front
  pub back : IsOff p.back
  pub no_read : (p.read_front ≡ []) × (p.read_back ≡ [])

pub data Stands (p : Pair) : Type 0 where
  has_exited : p.exited ≡ true → p.joined ≡ false → Stands p
  waiting : Waiting p → Stands p
  joined : Joined p → Stands p
  over : Over p → Stands p

Kept-either :
    (o : Bool) (words read : List Bytes) → Kept o words read → (words ≡ read) ⊎ (words ≡ [])
Kept-either true words read h = inl h
Kept-either false words read h = inr h

pub dies :
    {d c o : Bool} {words : List Bytes} (reason : Option Bytes) (s : Netsocket)
    → Alive 0 d c o words s
    → Closed words
        (record (touch (
          leave_callback
            (netsocket_destroy (enter_callback event_disconnect (closing reason s))))) {
              connected = false;
            })
dies reason s h =
    let entered = enter-Alive (closing reason s) (closing-Alive s h reason) event_disconnect in
    leave-Closed (netsocket_destroy (enter_callback event_disconnect (closing reason s)))
      (destroy_inside (enter_callback event_disconnect (closing reason s)) entered 0 refl)

-- Both ends are destroyed, each in the callback or outside as it stands.
abbrev both_destroyed : Pair → Pair
both_destroyed p = record p { front = netsocket_destroy p.front; back = netsocket_destroy p.back }

destroyed_if_joined :
    (p : Pair)
    → p.joined ≡ true
    → p.wild ≡ false
    → record p {
      front = netsocket_destroy p.front;
      back = if p.joined then netsocket_destroy p.back else p.back;
      wild = p.wild || not p.joined;
    }
      ≡ both_destroyed p
destroyed_if_joined p j w =
    let back = if_true p.joined (netsocket_destroy p.back) p.back j in
    let wild : (p.wild || not p.joined) ≡ p.wild = ground (arith, j, w) in
    ap₂ (λ b x. record p { front = netsocket_destroy p.front; back = b; wild = x }) back wild

scallback_disconnect :
    (remote : Remote) (sys : System) (p : Pair)
    → p.front.connected ≡ true
    → p.joined ≡ true
    → p.wild ≡ false
    → scallback remote sys event_disconnect p ≡ both_destroyed p
unfolding scallback
scallback_disconnect remote sys p c j w =
    if_false (not p.front.connected) _ _ (ground (arith, c)) ∙ destroyed_if_joined p j w

-- What is done behind the callback.
abbrev after : Pair → Pair
after p = record p { front = record (touch (leave_callback p.front)) { connected = false } }

pub disconnect-Over :
    (remote : Remote) (sys : System) (e : End) (reason : Option Bytes) (p : Pair)
    → Joined p
    → Over (disconnect (end e) (callback_of remote sys e) reason p)
unfolding disconnect invoke_callback ccallback
disconnect-Over remote sys front_end reason p h =
    let entered = record p { front = enter_callback event_disconnect (closing reason p.front) } in
    let shut = closing-Alive p.front h.front reason in
    subst (λ q. Over (after q))
      (sym (scallback_disconnect remote sys entered shut.is_connected h.has_back h.tame))
      record {
        tame = h.tame;
        runs = h.runs;
        has_back = h.has_back;
        words = h.words;
        front = dies reason p.front h.front;
        back = destroy-Closed p.back h.back refl;
        kept = Kept-either h.opened h.words p.read_front h.kept;
      }
disconnect-Over remote sys back_end reason p h = record {
  tame = h.tame;
  runs = h.runs;
  has_back = h.has_back;
  words = h.words;
  front = destroy-Closed p.front h.front refl;
  back = dies reason p.back h.back;
  kept = Kept-either h.opened h.words p.read_front h.kept;
}
