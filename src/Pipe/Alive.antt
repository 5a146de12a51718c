-- ===== src/Pipe/Alive.antt =====
-- What the parts of netsocket.c do to an object that is not freed.
use libc_jss.Base.{
  ltb, ◌==◌, if◌then◌else◌, if_true, if_false, lt→ltb, Bool-cases, Bytes, ℤ, ℕ, suc, ◌+◌, ◌-◌, ◌≡◌,
  refl, sym, ap, subst, ◌∙◌, inl, inr, Bool, true, false, ◌&&◌, ◌||◌, Option, none, some, List, [],
  ◌∷◌, arith,
}
use libc_jss.Netsocket.{
  is_open, Effect, called, sent, Event, Netsocket, touch, sock_close, save_reason,
  disconnect_quietly, netsocket_destroy, enter_callback, leave_callback, netsocket_write,
}
use libc_jss.Netsocket.Handlers.{is_server}
use libc_jss.Netsocket.Part.{closing}

-- What was given to `send`, the latest first.
abbrev pub sents : List Effect → List Bytes
sents [] = []
sents (called event c ∷ log) = sents log
sents (sent bytes ∷ log) = bytes ∷ sents log

-- An object's watchers, none of them active.
abbrev pub IsOff : Netsocket → Type 0
IsOff s = (s.w_in || s.w_out || s.w_connect_timeout) ≡ false

-- What is kept of an object's fields.
pub record Fields : Type 0 where
  pub freed : Bool
  pub depth : ℕ
  pub asked : Bool
  pub connected : Bool
  pub has_sock : Bool
  pub sent : List Bytes
  pub serves : Bool
  pub active : Bool

abbrev pub fields : Netsocket → Fields
fields s = record {
  freed = s.freed;
  depth = s.in_callback;
  asked = s.destroy_request;
  connected = s.connected;
  has_sock = is_open s.sock;
  sent = sents s.log;
  serves = is_server s.mode;
  active = s.w_in || s.w_out || s.w_connect_timeout;
}

-- An object that is not freed: in how many callbacks it is, whether a destroy is asked for, whether
-- it is connected and has a socket, and what it has sent. Without a socket no watcher is active.
pub record AliveAt (n : ℕ) (d c o : Bool) (words : List Bytes) (f : Fields) : Type 0 where
  pub not_freed : f.freed ≡ false
  pub depth : f.depth ≡ n
  pub asked : f.asked ≡ d
  pub is_connected : f.connected ≡ c
  pub opened : f.has_sock ≡ o
  pub said : f.sent ≡ words
  pub is_client : f.serves ≡ false
  pub quiet : o ≡ false → f.active ≡ false

abbrev pub Alive : ℕ → Bool → Bool → Bool → List Bytes → Netsocket → Type 0
Alive n d c o words s = AliveAt n d c o words (fields s)

-- A freed object.
abbrev pub Closed : List Bytes → Netsocket → Type 0
Closed words s = (s.freed ≡ true) × (sents s.log ≡ words) × IsOff s × (is_open s.sock ≡ false)

module _ (n : ℕ) (d c o : Bool) (words : List Bytes) (s : Netsocket) where
  -- The same, at another depth and with another flag.
  moved :
      (m depth : ℕ) (d' asked : Bool)
      → depth ≡ m
      → asked ≡ d'
      → AliveAt n d c o words (fields s)
      → AliveAt m d' c o words (record (fields s) { depth = depth; asked = asked })
  moved m depth d' asked e k h = record {
    not_freed = h.not_freed;
    depth = e;
    asked = k;
    is_connected = h.is_connected;
    opened = h.opened;
    said = h.said;
    is_client = h.is_client;
    quiet = h.quiet;
  }

  shut :
      AliveAt n d c o words (fields s)
      → AliveAt n d c false words (record (fields s) { has_sock = false; active = false })
  shut h = record {
    not_freed = h.not_freed;
    depth = h.depth;
    asked = h.asked;
    is_connected = h.is_connected;
    opened = refl;
    said = h.said;
    is_client = h.is_client;
    quiet = λ k. refl;
  }

  sock_close-Alive : Alive n d c o words s → Alive n d c false words (sock_close s)
  unfolding sock_close
  sock_close-Alive h = elim (Bool-cases (is_open s.sock)) [
    | inl e ↦ rw e (shut h)
    | inr e ↦ rw e (subst (λ x. Alive n d c x words s) (sym h.opened ∙ e) h)
  ]

module _ {n : ℕ} {d c o : Bool} {words : List Bytes} (s : Netsocket)
    (h : Alive n d c o words s) where
  pub enter-Alive : (event : Event) → Alive (n + 1) d c o words (enter_callback event s)
  enter-Alive event =
      let e : s.in_callback + 1 ≡ n + 1 = omega (arith, h.depth) in
      moved n d c o words s (n + 1) (s.in_callback + 1) d s.destroy_request e h.asked h

  pub closing-Alive : (reason : Option Bytes) → Alive n d c false words (closing reason s)
  unfolding save_reason
  closing-Alive none = sock_close-Alive n d c o words (touch s) h
  closing-Alive (some reason) = sock_close-Alive n d c o words (touch s) h

  pub destroy_inside : (m : ℕ) → n ≡ suc m → Alive n true c o words (netsocket_destroy s)
  unfolding netsocket_destroy
  destroy_inside m e =
      let inside : ltb 0 s.in_callback ≡ true = lt→ltb 0 s.in_callback (omega (arith, h.depth)) in
      rw inside (moved n d c o words s n s.in_callback true true h.depth refl h)

  pub destroy-Closed : n ≡ 0 → Closed words (netsocket_destroy s)
  unfolding netsocket_destroy disconnect_quietly save_reason
  destroy-Closed e =
      let outside : ltb 0 s.in_callback ≡ false = ground (arith, h.depth) in
      let shut = sock_close-Alive n d c o words (touch (touch s)) h in
      rw outside (refl, shut.said, shut.quiet refl, shut.opened)

module _ (s : Netsocket) (depth : s.in_callback ≡ 1) where
  left : Netsocket
  left = record (touch s) { in_callback = s.in_callback - 1 }

  one_less : s.in_callback - 1 ≡ 0
  one_less = omega (arith, depth)

  leave_unasked : s.destroy_request ≡ false → leave_callback s ≡ left
  unfolding leave_callback left
  leave_unasked e =
      if_false (s.destroy_request && s.in_callback - 1 == 0) (netsocket_destroy left) left
        (ground (arith, e))

  leave_asked : s.destroy_request ≡ true → leave_callback s ≡ netsocket_destroy left
  unfolding leave_callback left
  leave_asked e =
      if_true (s.destroy_request && s.in_callback - 1 == 0) (netsocket_destroy left) left
        (ground (arith, e, one_less))

  left-Alive :
      {d c o : Bool} {words : List Bytes} → Alive 1 d c o words s → Alive 0 d c o words left
  unfolding left
  left-Alive {d} {c} {o} {words} h =
      moved 1 d c o words s 0 (s.in_callback - 1) d s.destroy_request one_less h.asked h

-- Leaving the last callback.
module _ {c o : Bool} {words : List Bytes} (s : Netsocket) where
  pub leave-Alive : Alive 1 false c o words s → Alive 0 false c o words (leave_callback s)
  leave-Alive h =
      subst (Alive 0 false c o words) (sym (leave_unasked s h.depth h.asked))
        (left-Alive s h.depth h)

  pub leave-Closed : Alive 1 true c o words s → Closed words (leave_callback s)
  leave-Closed h =
      subst (Closed words) (sym (leave_asked s h.depth h.asked))
        (destroy-Closed (left s h.depth) (left-Alive s h.depth h) refl)

  pub leave-w_out : Alive 1 false c o words s → (leave_callback s).w_out ≡ s.w_out
  unfolding left
  leave-w_out h = ap (λ t. t.w_out) (leave_unasked s h.depth h.asked)

-- `disconnect` without an event
pub disconnect_quietly-Alive :
    {n : ℕ} {d c o : Bool} {words : List Bytes} (reason : Option Bytes) (s : Netsocket)
    → Alive n d c o words s
    → Alive n d false false words (disconnect_quietly reason s)
unfolding disconnect_quietly
disconnect_quietly-Alive reason s h =
    let shut = closing-Alive s h reason in
    record {
      not_freed = shut.not_freed;
      depth = shut.depth;
      asked = shut.asked;
      is_connected = refl;
      opened = shut.opened;
      said = shut.said;
      is_client = shut.is_client;
      quiet = shut.quiet;
    }

pub write-w_out :
    (s : Netsocket) (answer : ℤ) (bytes : Bytes)
    → (netsocket_write answer bytes s).0.w_out ≡ s.w_out
unfolding netsocket_write
write-w_out s answer bytes = elim (Bool-cases (is_open s.sock)) [ inl e ↦ rw e | inr e ↦ rw e ]

-- A write: the bytes are given to `send` if there is a socket.
pub write-Alive :
    {n : ℕ} {d c : Bool} {words : List Bytes} (o : Bool) (s : Netsocket) (answer : ℤ)
    (bytes : Bytes)
    → Alive n d c o words s
    → Alive n d c o (if o then bytes ∷ words else words) (netsocket_write answer bytes s).0
unfolding netsocket_write
write-Alive true s answer bytes h = rw h.opened record {
  not_freed = h.not_freed;
  depth = h.depth;
  asked = h.asked;
  is_connected = h.is_connected;
  opened = h.opened;
  said = ap (◌∷◌ bytes) h.said;
  is_client = h.is_client;
  quiet = h.quiet;
}
write-Alive false s answer bytes h = rw h.opened h
