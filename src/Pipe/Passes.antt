-- ===== src/Pipe/Passes.antt =====
-- pipe.c: the bytes that one end has read are written to the other.
use libc_jss.Base.{
  if◌then◌else◌, if_true, length, take, take_all, Bytes, ◌≡◌, sym, ap, ap₂, subst, ◌∙◌, Bool, true,
  false, not, ◌||◌, List, ◌∷◌, arith,
}
use libc_jss.Netsocket.{
  event_read, Netsocket, touch, netsocket_write, enter_callback, leave_callback,
}
use libc_jss.Netsocket.Start.{System}
use libc_jss.Netsocket.Part.{invoke_callback}
use libc_jss.Pipe.{
  Pair, End, front_end, back_end, at, put, note, Remote, ccallback, scallback, callback_of, end,
}
use libc_jss.Pipe.Alive.{Alive, enter-Alive, leave-Alive, leave-w_out, write-Alive, write-w_out}
use libc_jss.Pipe.Closes.{Kept, Joined}

abbrev holding : Bytes → Netsocket → Netsocket
holding got s = record s { inbuf = got; inbuf_len = length got }

-- A read event at one end, with the bytes in its buffer.
abbrev passed : Remote → System → End → Bytes → Pair → Pair
passed remote sys e got p =
    note event_read e got (
      invoke_callback (end e) (callback_of remote sys e) event_read
        (put e (holding got (at e p)) p))

Kept-more :
    (o : Bool) (got : Bytes) (words read : List Bytes)
    → Kept o words read
    → Kept o (if o then got ∷ words else words) (got ∷ read)
Kept-more true got words read h = ap (◌∷◌ got) h
Kept-more false got words read h = h

scallback_read :
    (remote : Remote) (sys : System) (p : Pair)
    → p.joined ≡ true
    → p.wild ≡ false
    → scallback remote sys event_read p ≡ record p {
      front = touch p.front;
      back = (netsocket_write sys.send (take p.front.inbuf_len p.front.inbuf) p.back).0;
    }
unfolding scallback
scallback_read remote sys p j w =
    let wild : (p.wild || not p.joined) ≡ p.wild = ground (arith, j, w) in
    ap₂ (λ b x. record p { front = touch p.front; back = b; wild = x })
      (if_true p.joined _ p.back j) wild

take-length : (s : Bytes) → take (length s) s ≡ s
take-length s = take_all (length s) s (omega arith)

pub passed-Joined :
    (remote : Remote) (sys : System) (e : End) (got : Bytes) (p : Pair)
    → Joined p
    → Joined (passed remote sys e got p)
unfolding invoke_callback ccallback
passed-Joined remote sys front_end got p h =
    let s = enter_callback event_read (holding got p.front) in
    let entered = enter-Alive (holding got p.front) h.front event_read in
    let event = scallback_read remote sys (record p { front = s }) h.has_back h.tame in
    subst (λ q. Joined (note event_read front_end got (put front_end (leave_callback q.front) q)))
      (sym event)
      record {
        tame = h.tame;
        runs = h.runs;
        has_back = h.has_back;
        front = leave-Alive (touch s) entered;
        no_output = leave-w_out (touch s) entered ∙ h.no_output;
        connected = h.connected;
        opened = h.opened;
        words = if h.opened then got ∷ h.words else h.words;
        back =
            subst
              (λ bytes.
                Alive 0 false h.connected h.opened (if h.opened then got ∷ h.words else h.words)
                  (netsocket_write sys.send bytes p.back).0)
              (sym (take-length got)) (write-Alive h.opened p.back sys.send got h.back);
        kept = Kept-more h.opened got h.words p.read_front h.kept;
      }
passed-Joined remote sys back_end got p h =
    let s = enter_callback event_read (holding got p.back) in
    let entered = enter-Alive (holding got p.back) h.back event_read in
    record {
      tame = h.tame;
      runs = h.runs;
      has_back = h.has_back;
      front =
          subst
            (λ bytes.
              Alive 0 false true true (got ∷ p.read_back)
                (netsocket_write sys.send bytes p.front).0)
            (sym (take-length got)) (write-Alive true p.front sys.send got h.front);
      no_output = write-w_out p.front sys.send (take (length got) got) ∙ h.no_output;
      connected = h.connected;
      opened = h.opened;
      words = h.words;
      back = leave-Alive (touch s) entered;
      kept = h.kept;
    }
