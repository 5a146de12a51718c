-- ===== src/Netsocket/Safety.antt =====
-- What holds of every object in a run of the event loop, and which calls are safe.
mod Examples
use libc_jss.Base.{
  Bytes, ℕ, suc, ◌≡◌, refl, sym, subst, ◌∙◌, inl, inr, true, false, Option, ◌∷◌, arith,
}
use libc_jss.Netsocket.{is_open, Event, called, Netsocket}
use libc_jss.Netsocket.Part.{invoke_callback, disconnect}
use libc_jss.Netsocket.World.{World, object, Script, run, replies, Reachable}
use libc_jss.Netsocket.Inside.{IsQuiet, IsOrdered, Live, Ended, Ends, still-Live}
use libc_jss.Netsocket.Fine.{Fine, invoke_callback-Ends, disconnect-Ends}
use libc_jss.Netsocket.Runs.{unfreed-Live, run-Fine, replies-IsHonest, Reachable-Fine}

-- In every run of a program with any number of objects, whose callbacks call on any of them: once
-- an object is freed, none of its three watchers is active, and it has no socket, so that the
-- event loop never calls a handler of a freed object.
pub Reachable-freed :
    (w : World)
    → Reachable w
    → (a : ℕ) → (w a).freed ≡ true
    → (is_open (w a).sock ≡ false)
      × ((w a).w_in ≡ false)
      × ((w a).w_out ≡ false)
      × ((w a).w_connect_timeout ≡ false)
Reachable-freed w r a e = elim (Reachable-Fine w r a).1 [
  | inl h ↦ absurd (ground (arith, e, h.0.1.0))
  | inr (z, h) ↦ let off = h.1.1.1.1.0 h.1.1.1.0 in (h.1.1.1.0, off.0, off.1, off.2)
]

-- In every run of a program with any number of objects, whose callbacks call on any of them:
-- between two turns of the event loop an object that is not freed is in no callback, no destroy
-- that was asked for is left undone, no freed memory has been accessed through it, and without a
-- socket it has no active watcher.
pub Reachable-live :
    (w : World)
    → Reachable w
    → (a : ℕ) → (w a).freed ≡ false
    → ((w a).in_callback ≡ 0)
      × ((w a).destroy_request ≡ false)
      × ((w a).misused ≡ false)
      × IsQuiet (w a)
Reachable-live w r a e =
    let (h, k) = unfreed-Live 0 (w a) (Reachable-Fine w r a) e in (h.0, k refl, h.1.1.0, h.1.1.1.0)

-- In every run of a program with any number of objects, whose callbacks call on any of them, each
-- `NETSOCKET_EVENT_READ` reaches the callback of an object while that object is connected.
pub Reachable-IsOrdered : (w : World) → Reachable w → (a : ℕ) → IsOrdered (w a).log
Reachable-IsOrdered w r a = elim (Reachable-Fine w r a).1 [
  | inl h ↦ h.0.1.1.1.1
  | inr (z, h) ↦ h.1.1.1.1.1
]

-- Whatever objects a callback makes, whatever calls it makes on any of the objects, whatever the
-- system answers, and however deep callbacks nest: if each object is live in its number of
-- callbacks, or freed in none, then so it is behind the callback; and each object with a callback
-- on the stack is still live there, so that no destroy frees an object inside its callback.
pub run-Live :
    (script : Script) (depth : ℕ → ℕ) (w : World)
    → Fine depth w
    → Fine depth (run script w) × ((a n : ℕ) → depth a ≡ suc n → Live (suc n) (run script w a))
run-Live script depth w h = (
  run-Fine script depth w h,
  λ a n e.
      still-Live n (run script w a)
        (subst (λ m. Ended m (run script w a)) e (run-Fine script depth w h a)),
)

module _ (n : ℕ) (t : Netsocket) where
  unmisused : Ends false n t → t.misused ≡ false
  unmisused (inl h) = h.0.1.1.0
  unmisused (inr h) = h.1.1.1.0

  misused_if_freed : Ends true n t → t.misused ≡ t.freed
  misused_if_freed (inl h) = h.0.1.1.0 ∙ sym h.0.1.0
  misused_if_freed (inr h) = h.1.1.1.0 ∙ sym h.1.1.0

-- For a live object among others, in any number of callbacks, whatever its callback does to all of
-- them: an event that `invoke_callback` delivers, a read event only if the object is connected, ends
-- with no access to the object's memory once it is freed; and `disconnect` with an event makes such
-- an access exactly when the object is freed in the end, since `obj->connected = 0` stands behind
-- the call that frees it.
pub misused_only_by_disconnect :
    (reply : Event → Script) (event : Event) (reason : Option Bytes) (depth : ℕ → ℕ) (a : ℕ)
    (w : World)
    → Fine depth w
    → Live (depth a) (w a)
    → IsOrdered (called event (w a).connected ∷ (w a).log)
    → ((invoke_callback (object a) (replies reply) event w a).misused ≡ false)
      × (let t = disconnect (object a) (replies reply) reason w a in t.misused ≡ t.freed)
misused_only_by_disconnect reply event reason depth a w f h k =
    let cb = replies reply in
    let honest = replies-IsHonest reply in
    (
      unmisused (depth a) (invoke_callback (object a) cb event w a)
          (invoke_callback-Ends cb honest depth a event w h k (λ b e. f b)).0,
      misused_if_freed (depth a) (disconnect (object a) cb reason w a)
          (disconnect-Ends cb honest depth a reason w h (λ b e. f b)).0,
    )
