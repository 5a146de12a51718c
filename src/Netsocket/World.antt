-- ===== src/Netsocket/World.antt =====
-- netsocket.c: the objects of a program, what callbacks do to them, and the runs of the event loop.
use libc_jss.Base.{
  ◌==◌, if◌then◌else◌, ==_refl, ℕ, ◌≡◌, refl, Bool, true, false, Option, none, some,
}
use libc_jss.Netsocket.{Event, Netsocket, netsocket_new}
use libc_jss.Netsocket.Start.{System}
use libc_jss.Netsocket.Handlers.{Readiness, w_in_cb, w_out_cb, w_connect_timeout_cb}
use libc_jss.Netsocket.Script.{Call, perform}
use libc_jss.Netsocket.Part.{Lens, within}

-- The object at each address. An address that is not in use holds a freed object.
abbrev pub World : Type 0
World = ℕ → Netsocket

abbrev pub nothing : World
nothing = λ a. record (netsocket_new 0 0) { freed = true }

unfoldable pub place : ℕ → Netsocket → World → World
place a s w = λ b. if b == a then s else w b

-- What `malloc` gives is no address in use; it may be one that was freed.
unfoldable pub allocate : ℕ → Netsocket → World → World
unfolding place
allocate a s w = if (w a).freed then place a s w else w

pub place_here : (a : ℕ) (s : Netsocket) (w : World) → place a s w a ≡ s
unfolding place
place_here a s w = rw (==_refl a) refl

pub place_elsewhere : (a b : ℕ) (s : Netsocket) (w : World) → (b == a) ≡ false → place a s w b ≡ w b
unfolding place
place_elsewhere a b s w e = rw e refl

override_twice :
    {A : Type 0} (c : Bool) (x y z : A)
    → (if c then x else if c then y else z) ≡ (if c then x else z)
override_twice true x y z = refl
override_twice false x y z = refl

pub place-place : (a : ℕ) (s t : Netsocket) (w : World) → place a s (place a t w) ≡ place a s w
unfolding place
place-place a s t w = λ i. λ b. override_twice (b == a) s t (w b) i

unfoldable pub object : ℕ → Lens World
unfolding place
object a = record {
  at = λ w. w a;
  put = λ s w. place a s w;
  at-put = place_here a;
  put-put = place-place a;
}

-- What the user's code does in one run of a callback: it looks at the objects, makes new ones, and
-- makes calls on objects that are not freed. With each call stands what the callback does when that
-- call invokes it in its turn.
pub data Script : Type 0 where
  done : Script
  look : (World → Script) → Script
  create : ℕ → ℕ → ℕ → Script → Script
  call : ℕ → System → Call → Script → Script → Script

-- A call on an object that is freed is not made.
unfoldable pub call_on : (Event → World → World) → ℕ → System → Call → World → World
unfolding perform object
call_on cb a sys c w = if (w a).freed then w else perform (within (object a) cb w) sys c (w a)

unfoldable pub run : Script → World → World
unfolding call_on allocate
run done w = w
run (look f) w = run (f w) w
run (create a callback userdata rest) w = run rest (allocate a (netsocket_new callback userdata) w)
run (call a sys c inner rest) w = run rest (call_on (λ e v. run inner v) a sys c w)

abbrev pub replies : (Event → Script) → Event → World → World
replies reply e w = run (reply e) w

-- The child of an accepted connection is at `a`.
unfoldable pub adopt : ℕ → World × Option Netsocket → World
unfolding allocate
adopt a (w, none) = w
adopt a (w, some child) = allocate a child w

-- Outside callbacks the user makes an object, or a call; or the event loop finds a watcher active.
pub data Step : World → World → Type 0 where
  by_new :
      (a callback userdata : ℕ) (w : World)
      → Step w (allocate a (netsocket_new callback userdata) w)
  by_call :
      (reply : Event → Script) (a : ℕ) (sys : System) (c : Call) (w : World)
      → Step w (call_on (replies reply) a sys c w)
  by_input :
      (reply : Event → Script) (a b : ℕ) (sys : System) (r : Readiness) (w : World)
      → (w a).w_in ≡ true
      → Step w (adopt b (w_in_cb (within (object a) (replies reply) w) sys r (w a)))
  by_output :
      (reply : Event → Script) (a : ℕ) (sys : System) (r : Readiness) (w : World)
      → (w a).w_out ≡ true
      → Step w (w_out_cb (within (object a) (replies reply) w) sys r (w a))
  by_timeout :
      (reply : Event → Script) (a : ℕ) (w : World)
      → (w a).w_connect_timeout ≡ true
      → Step w (w_connect_timeout_cb (within (object a) (replies reply) w) (w a))

pub data Reachable : World → Type 0 where
  start : Reachable nothing
  next : (w v : World) → Reachable w → Step w v → Reachable v
