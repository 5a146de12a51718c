-- ===== src/Netsocket/Runs.antt =====
-- netsocket.c: what holds of all the objects behind each callback, and in each run.
use libc_jss.Base.{
  if_true, if_false, Bool-cases, ℕ, ◌≡◌, refl, sym, subst, inl, inr, true, false, ◌||◌, Option,
  none, some, arith,
}
use libc_jss.Netsocket.{Event, Netsocket, Ways, netsocket_new}
use libc_jss.Netsocket.Start.{System}
use libc_jss.Netsocket.Handlers.{Readiness, w_in_cb}
use libc_jss.Netsocket.Script.{Call, perform}
use libc_jss.Netsocket.Part.{within}
use libc_jss.Netsocket.World.{
  World, allocate, object, Script, done, look, create, call, call_on, run, replies, adopt, Step,
  by_new, by_call, by_input, by_output, by_timeout, Reachable, start, next,
}
use libc_jss.Netsocket.Inside.{IsOrdered, Live, Ended, Keeps}
use libc_jss.Netsocket.Calls.{IsSettled, perform_keeps}
use libc_jss.Netsocket.Turns.{
  child_of-Live, w_in_cb-child_of, w_in_cb_keeps, w_out_cb_keeps, w_connect_timeout_cb_keeps,
}
use libc_jss.Netsocket.Fine.{Fine, IsHonest, Fine-place, within-Keeps}

pub unfreed-Live : (n : ℕ) (s : Netsocket) → Ended n s → s.freed ≡ false → Live n s × IsSettled n s
unfreed-Live n s (misused, inl h) e = h
unfreed-Live n s (misused, inr h) e = absurd (ground (arith, e, h.1.1.0))

freed-outside : (n : ℕ) (s : Netsocket) → Ended n s → s.freed ≡ true → n ≡ 0
freed-outside n s (misused, inl h) e = absurd (ground (arith, e, h.0.1.0))
freed-outside n s (misused, inr h) e = h.0

-- A new object is fine where a freed one was.
allocate-Fine :
    (depth : ℕ → ℕ) (a : ℕ) (s : Netsocket) (w : World)
    → Live 0 s
    → s.destroy_request ≡ false
    → Fine depth w
    → Fine depth (allocate a s w)
unfolding allocate
allocate-Fine depth a s w h k fine = elim (Bool-cases (w a).freed) [
  | inl e ↦
      let out = freed-outside (depth a) (w a) (fine a) e in
      rw e (
        Fine-place depth a s w (false, inl (subst (λ n. Live n s) (sym out) h, λ z. k))
          (λ b z. fine b))
  | inr e ↦ rw e fine
]

netsocket_new-Live : (callback userdata : ℕ) → Live 0 (netsocket_new callback userdata)
unfolding IsOrdered
netsocket_new-Live callback userdata = (refl, (refl, (refl, (λ k. (refl, refl, refl), tt))))

module _ (cb : Event → World → World) (a : ℕ) (sys : System) (c : Call) (w : World) where
  pub call_on_unfreed :
      (w a).freed ≡ false → call_on cb a sys c w ≡ perform (within (object a) cb w) sys c (w a)
  unfolding call_on
  call_on_unfreed e = if_false (w a).freed w (perform (within (object a) cb w) sys c (w a)) e

  call_on_freed : (w a).freed ≡ true → call_on cb a sys c w ≡ w
  unfolding call_on
  call_on_freed e = if_true (w a).freed w (perform (within (object a) cb w) sys c (w a)) e

  call_on-Fine : IsHonest cb → (depth : ℕ → ℕ) → Fine depth w → Fine depth (call_on cb a sys c w)
  call_on-Fine honest depth fine = elim (Bool-cases (w a).freed) [
    | inl e ↦ subst (Fine depth) (sym (call_on_freed e)) fine
    | inr e ↦
        let (h, k) = unfreed-Live (depth a) (w a) (fine a) e in
        subst (Fine depth) (sym (call_on_unfreed e)) (
          perform_keeps (within (object a) cb w) (Fine depth) (depth a)
            (within-Keeps cb honest depth a w (λ b z. fine b)) sys c (w a) h k)
  ]

-- comment
pub run-Fine :
    (script : Script) (depth : ℕ → ℕ) (w : World) → Fine depth w → Fine depth (run script w)
unfolding run
run-Fine done depth w h = h
run-Fine (look f) depth w h = run-Fine (f w) depth w h
run-Fine (create a callback userdata rest) depth w h =
    run-Fine rest depth (allocate a (netsocket_new callback userdata) w) (
      allocate-Fine depth a (netsocket_new callback userdata) w
        (netsocket_new-Live callback userdata) refl h)
run-Fine (call a sys c inner rest) depth w h =
    run-Fine rest depth (call_on (λ e v. run inner v) a sys c w)
      (call_on-Fine (λ e v. run inner v) a sys c w (λ d e v k. run-Fine inner d v k) depth h)

pub replies-IsHonest : (reply : Event → Script) → IsHonest (replies reply)
replies-IsHonest reply depth e w h = run-Fine (reply e) depth w h

abbrev pub outside : ℕ → ℕ
outside a = 0

adopt-Fine :
    (a : ℕ) (w : World) (child : Option Netsocket)
    → ((s : Netsocket) → child ≡ some s → Live 0 s × (s.destroy_request ≡ false))
    → Fine outside w
    → Fine outside (adopt a (w, child))
unfolding adopt
adopt-Fine a w none h fine = fine
adopt-Fine a w (some s) h fine = allocate-Fine outside a s w (h s refl).0 (h s refl).1 fine

-- The event loop runs no handler of a freed object, since its watchers are not active.
active-Live :
    (s : Netsocket)
    → (s.w_in || s.w_out || s.w_connect_timeout) ≡ true
    → Ended 0 s
    → Live 0 s × IsSettled 0 s
active-Live s e (misused, inl h) = h
active-Live s e (misused, inr h) =
    let off = h.1.1.1.1.1.0 h.1.1.1.1.0 in absurd (ground (arith, off, e))

w_in_cb-child :
    {W : Type 0} (ways : Ways W) (sys : System) (r : Readiness) (s child : Netsocket)
    → (w_in_cb ways sys r s).1 ≡ some child
    → Live 0 child × (child.destroy_request ≡ false)
w_in_cb-child ways sys r s child e =
    let (n, k) = w_in_cb-child_of ways sys r s child e in
    subst (λ c. Live 0 c × (c.destroy_request ≡ false)) (sym k) (child_of-Live sys s n)

module _ (reply : Event → Script) (a : ℕ) (w : World) (fine : Fine outside w) where
  replies-Keeps : Keeps (within (object a) (replies reply) w) 0 (Fine outside)
  replies-Keeps = within-Keeps (replies reply) (replies-IsHonest reply) outside a w (λ b z. fine b)

Step-Fine : (w v : World) → Fine outside w → Step w v → Fine outside v
Step-Fine _ _ h (by_new a callback userdata w) =
    allocate-Fine outside a (netsocket_new callback userdata) w
      (netsocket_new-Live callback userdata) refl h
Step-Fine _ _ h (by_call reply a sys c w) =
    call_on-Fine (replies reply) a sys c w (replies-IsHonest reply) outside h
Step-Fine _ _ h (by_input reply a b sys r w e) =
    let ways = within (object a) (replies reply) w in
    let (l, k) = active-Live (w a) (ground (arith, e)) (h a) in
    adopt-Fine b (w_in_cb ways sys r (w a)).0 (w_in_cb ways sys r (w a)).1
      (w_in_cb-child ways sys r (w a))
      (w_in_cb_keeps ways (Fine outside) 0 (replies-Keeps reply a w h) sys r (w a) l k)
Step-Fine _ _ h (by_output reply a sys r w e) =
    let l = (active-Live (w a) (ground (arith, e)) (h a)).0 in
    w_out_cb_keeps (within (object a) (replies reply) w) (Fine outside) 0
      (replies-Keeps reply a w h) sys r (w a) l
Step-Fine _ _ h (by_timeout reply a w e) =
    let l = (active-Live (w a) (ground (arith, e)) (h a)).0 in
    w_connect_timeout_cb_keeps (within (object a) (replies reply) w) (Fine outside) 0
      (replies-Keeps reply a w h) (w a) l

pub Reachable-Fine : (w : World) → Reachable w → Fine outside w
unfolding IsOrdered
Reachable-Fine _ start =
    λ a. (false, inr (refl, (refl, (refl, (refl, (refl, (λ k. (refl, refl, refl), tt)))))))
Reachable-Fine _ (next w v r step) = Step-Fine w v (Reachable-Fine w r) step
