-- ===== src/Netsocket/Attempts.antt =====
-- In every run, a connection attempt is watched until it ends.
use libc_jss.Base.{
  ◌==◌, if◌then◌else◌, if_true, if_false, ==_iff, ==_refl, Bool-cases, Bytes, codes, ℕ, ◌≡◌, refl,
  sym, ap, subst, inl, inr, Bool, true, false, Option, none, some, arith,
}
use libc_jss.Netsocket.{
  is_open, client, dir_out, Event, event_disconnect, Netsocket, Ways, touch, enter_callback,
  leave_callback, netsocket_new,
}
use libc_jss.Netsocket.Start.{System}
use libc_jss.Netsocket.Handlers.{Readiness, w_in_cb, w_connect_timeout_cb}
use libc_jss.Netsocket.Script.{Call}
use libc_jss.Netsocket.Part.{closing, invoke_callback, disconnect, within}
use libc_jss.Netsocket.World.{
  World, nothing, place, allocate, place_here, place_elsewhere, object, Script, done, look, create,
  call, call_on, run, replies, adopt, Step, by_new, by_call, by_input, by_output, by_timeout,
  Reachable, start, next,
}
use libc_jss.Netsocket.Turns.{w_in_cb-child_of}
use libc_jss.Netsocket.Watched.{
  is_client, is_outgoing, IsWatched, Watches, closed-IsWatched, closing_closed, IsWatched-connected,
  leave_callback-IsWatched,
}
use libc_jss.Netsocket.Watching.{
  perform_watches, w_in_cb_watches, w_out_cb_watches, child_of-IsWatched,
}

-- Every object is watched; where `closes` holds of an object, a call of `disconnect` on it is on the
-- stack, which sets `connected` to 0 behind the callback.
abbrev AllWatched : (ℕ → Bool) → World → Type 0
AllWatched closes w = (a : ℕ) → IsWatched (closes a) (w a)

abbrev closing_at : (ℕ → Bool) → ℕ → ℕ → Bool
closing_at closes a b = if b == a then true else closes b

place-AllWatched :
    (closes : ℕ → Bool) (a : ℕ) (s : Netsocket) (w : World)
    → IsWatched (closes a) s
    → ((b : ℕ) → (b == a) ≡ false → IsWatched (closes b) (w b))
    → AllWatched closes (place a s w)
place-AllWatched closes a s w h k b = elim (Bool-cases (b == a)) [
  | inl e ↦
      let here = (==_iff b a).0 e in
      subst (λ c. IsWatched (closes c) (place a s w c)) (sym here)
        (subst (IsWatched (closes a)) (sym (place_here a s w)) h)
  | inr e ↦ subst (IsWatched (closes b)) (sym (place_elsewhere a b s w e)) (k b e)
]

-- A callback that keeps all the objects watched, whatever calls of `disconnect` are on the stack.
abbrev Minds : (Event → World → World) → Type 0
Minds cb =
    (closes : ℕ → Bool) (e : Event) (w : World) → AllWatched closes w → AllWatched closes (cb e w)

module _ (cb : Event → World → World) (minds : Minds cb) (closes : ℕ → Bool) (a : ℕ) where
  invoke_callback-AllWatched :
      (event : Event) (w : World)
      → AllWatched closes w
      → AllWatched closes (invoke_callback (object a) cb event w)
  unfolding invoke_callback object
  invoke_callback-AllWatched event w h =
      let u = place a (enter_callback event (w a)) w in
      let v = cb event u in
      let entered = place-AllWatched closes a (enter_callback event (w a)) w (h a) (λ b e. h b) in
      let after = minds closes event u entered in
      place-AllWatched closes a (leave_callback (v a)) v
        (leave_callback-IsWatched (closes a) (v a) (after a)) (λ b e. after b)

module _ (cb : Event → World → World) (minds : Minds cb) (closes : ℕ → Bool) (a : ℕ) where
  disconnect-AllWatched :
      (reason : Option Bytes) (w : World)
      → ((b : ℕ) → (b == a) ≡ false → IsWatched (closes b) (w b))
      → AllWatched closes (disconnect (object a) cb reason w)
  unfolding disconnect object
  disconnect-AllWatched reason w h =
      let s = closing reason (w a) in
      let u = place a s w in
      let within_call : AllWatched (closing_at closes a) u =
        place-AllWatched (closing_at closes a) a s w
          (closed-IsWatched (closing_at closes a a) s (closing_closed reason (w a)))
          (λ b e.
            subst (λ c. IsWatched c (w b)) (sym (if_false (b == a) true (closes b) e)) (h b e)) in
      let v = invoke_callback (object a) cb event_disconnect u in
      let after =
        invoke_callback-AllWatched cb minds (closing_at closes a) a event_disconnect u
          within_call in
      let strict : IsWatched true (v a) =
        subst (λ c. IsWatched c (v a)) (if_true (a == a) true (closes a) (==_refl a)) (after a) in
      place-AllWatched closes a (record (touch (v a)) { connected = false }) v
        (IsWatched-connected (closes a) (v a) strict)
        (λ b e. subst (λ c. IsWatched c (v b)) (if_false (b == a) true (closes b) e) (after b))

  within-Watches :
      (w : World)
      → AllWatched closes w
      → Watches (within (object a) cb w) (closes a) (AllWatched closes)
  unfolding object
  within-Watches w h = record {
    watches_return = λ s k. place-AllWatched closes a s w k (λ b e. h b);
    watches_invoke = λ event s k.
        invoke_callback-AllWatched cb minds closes a event (place a s w)
          (place-AllWatched closes a s w k (λ b e. h b));
    watches_disconnect = λ reason s.
        disconnect-AllWatched reason (place a s w)
          (λ b e. subst (IsWatched (closes b)) (sym (place_elsewhere a b s w e)) (h b));
  }

allocate-AllWatched :
    (closes : ℕ → Bool) (a : ℕ) (s : Netsocket) (w : World)
    → ((c : Bool) → IsWatched c s)
    → AllWatched closes w
    → AllWatched closes (allocate a s w)
unfolding allocate
allocate-AllWatched closes a s w k h = elim (Bool-cases (w a).freed) [
  | inl e ↦ rw e (place-AllWatched closes a s w (k (closes a)) (λ b z. h b))
  | inr e ↦ rw e h
]

netsocket_new-IsWatched :
    (callback userdata : ℕ) (c : Bool) → IsWatched c (netsocket_new callback userdata)
netsocket_new-IsWatched callback userdata c =
    closed-IsWatched c (netsocket_new callback userdata) refl

call_on-AllWatched :
    (cb : Event → World → World) (closes : ℕ → Bool) (a : ℕ) (sys : System) (c : Call) (w : World)
    → Minds cb
    → AllWatched closes w
    → AllWatched closes (call_on cb a sys c w)
unfolding call_on
call_on-AllWatched cb closes a sys c w minds h = elim (Bool-cases (w a).freed) [
  | inl e ↦ subst (AllWatched closes) (sym (if_true (w a).freed _ _ e)) h
  | inr e ↦ subst (AllWatched closes) (sym (if_false (w a).freed _ _ e)) (
      perform_watches (within (object a) cb w) (closes a) (AllWatched closes)
        (within-Watches cb minds closes a w h) sys c (w a) (h a))
]

run-AllWatched :
    (script : Script) (closes : ℕ → Bool) (w : World)
    → AllWatched closes w
    → AllWatched closes (run script w)
unfolding run
run-AllWatched done closes w h = h
run-AllWatched (look f) closes w h = run-AllWatched (f w) closes w h
run-AllWatched (create a callback userdata rest) closes w h =
    run-AllWatched rest closes (allocate a (netsocket_new callback userdata) w) (
      allocate-AllWatched closes a (netsocket_new callback userdata) w
        (netsocket_new-IsWatched callback userdata) h)
run-AllWatched (call a sys c inner rest) closes w h =
    run-AllWatched rest closes (call_on (λ e v. run inner v) a sys c w) (
      call_on-AllWatched (λ e v. run inner v) closes a sys c w
        (λ q e v k. run-AllWatched inner q v k) h)

replies-Minds : (reply : Event → Script) → Minds (replies reply)
replies-Minds reply closes e w h = run-AllWatched (reply e) closes w h

abbrev none_closes : ℕ → Bool
none_closes a = false

adopt-AllWatched :
    (a : ℕ) (w : World) (child : Option Netsocket)
    → ((s : Netsocket) → child ≡ some s → (c : Bool) → IsWatched c s)
    → AllWatched none_closes w
    → AllWatched none_closes (adopt a (w, child))
unfolding adopt
adopt-AllWatched a w none k h = h
adopt-AllWatched a w (some s) k h = allocate-AllWatched none_closes a s w (k s refl) h

accepted-IsWatched :
    {W : Type 0} (ways : Ways W) (sys : System) (r : Readiness) (s child : Netsocket)
    → (w_in_cb ways sys r s).1 ≡ some child
    → (c : Bool) → IsWatched c child
accepted-IsWatched ways sys r s child e c =
    let (n, k) = w_in_cb-child_of ways sys r s child e in
    subst (IsWatched c) (sym k) (child_of-IsWatched c sys s n)

Step-AllWatched : (w v : World) → AllWatched none_closes w → Step w v → AllWatched none_closes v
unfolding w_connect_timeout_cb
Step-AllWatched _ _ h (by_new a callback userdata w) =
    allocate-AllWatched none_closes a (netsocket_new callback userdata) w
      (netsocket_new-IsWatched callback userdata) h
Step-AllWatched _ _ h (by_call reply a sys c w) =
    call_on-AllWatched (replies reply) none_closes a sys c w (replies-Minds reply) h
Step-AllWatched _ _ h (by_input reply a b sys r w e) =
    let ways = within (object a) (replies reply) w in
    let kept = within-Watches (replies reply) (replies-Minds reply) none_closes a w h in
    adopt-AllWatched b (w_in_cb ways sys r (w a)).0 (w_in_cb ways sys r (w a)).1
      (accepted-IsWatched ways sys r (w a))
      (w_in_cb_watches ways (AllWatched none_closes) kept sys r (w a) (h a))
Step-AllWatched _ _ h (by_output reply a sys r w e) =
    let kept = within-Watches (replies reply) (replies-Minds reply) none_closes a w h in
    w_out_cb_watches (within (object a) (replies reply) w) (AllWatched none_closes) kept sys r (w a)
Step-AllWatched _ _ h (by_timeout reply a w e) =
    let kept = within-Watches (replies reply) (replies-Minds reply) none_closes a w h in
    kept.watches_disconnect (some (codes "Connection timed out")) (w a)

Reachable-AllWatched : (w : World) → Reachable w → AllWatched none_closes w
Reachable-AllWatched _ start = λ a. closed-IsWatched false (nothing a) refl
Reachable-AllWatched _ (next w v r step) = Step-AllWatched w v (Reachable-AllWatched w r) step

-- In every run of a program with any number of objects, whose callbacks call on any of them, those
-- that connect again in a callback included: between two turns of the event loop, an object that has
-- a socket to a remote host and is not connected has its output watcher and its timer active, so that
-- the event loop still hears of the connection or of the end of its time.
pub attempt_watched :
    (w : World)
    → Reachable w
    → (a : ℕ) → is_open (w a).sock ≡ true
    → (w a).mode ≡ client
    → (w a).direction ≡ dir_out
    → (w a).connected ≡ false
    → ((w a).w_out ≡ true) × ((w a).w_connect_timeout ≡ true)
attempt_watched w r a o m d c =
    Reachable-AllWatched w r a (ground (arith, o, ap is_client m, ap is_outgoing d, c))
