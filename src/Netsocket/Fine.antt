-- ===== src/Netsocket/Fine.antt =====
-- netsocket.c: what holds of all the objects of a program, through callbacks that call on any of
-- them.
use libc_jss.Base.{
  ◌==◌, if◌then◌else◌, ==_iff, ==_refl, Bool-cases, Bytes, ℕ, suc, ◌≡◌, refl, sym, subst, inl, inr,
  true, false, Option, ◌∷◌, arith,
}
use libc_jss.Netsocket.{
  Event, event_disconnect, called, Netsocket, leave_callback, enter_callback, touch,
}
use libc_jss.Netsocket.Inside.{
  IsOrdered, Live, Ends, Ended, Keeps, touch-Live, closed-Ends, closing-Live, still-Live,
  leave_callback-Ends,
}
use libc_jss.Netsocket.Part.{invoke_callback, disconnect, within, closing}
use libc_jss.Netsocket.World.{World, place, place_here, place_elsewhere, object}

-- Each object is live in the number of callbacks that `depth` gives, or it is freed in none.
abbrev pub Fine : (ℕ → ℕ) → World → Type 0
Fine depth w = (a : ℕ) → Ended (depth a) (w a)

-- The same of every object but the one at `a`.
abbrev pub Others : (ℕ → ℕ) → ℕ → World → Type 0
Others depth a w = (b : ℕ) → (b == a) ≡ false → Ended (depth b) (w b)

-- One more callback for the object at `a`.
abbrev pub deeper : (ℕ → ℕ) → ℕ → ℕ → ℕ
deeper depth a b = if b == a then suc (depth b) else depth b

pub Others-place :
    (depth : ℕ → ℕ) (a : ℕ) (s : Netsocket) (w : World)
    → Others depth a w
    → Others depth a (place a s w)
Others-place depth a s w k b e = subst (Ended (depth b)) (sym (place_elsewhere a b s w e)) (k b e)

pub Fine-split :
    (depth : ℕ → ℕ) (a : ℕ) (w : World) → Ended (depth a) (w a) → Others depth a w → Fine depth w
Fine-split depth a w h k b = elim (Bool-cases (b == a)) [
  | inl e ↦ subst (λ c. Ended (depth c) (w c)) (sym ((==_iff b a).0 e)) h
  | inr e ↦ k b e
]

placed : (P : Netsocket → Type 0) (a : ℕ) (s : Netsocket) (w : World) → P s → P (place a s w a)
placed P a s w h = subst P (sym (place_here a s w)) h

pub Fine-place :
    (depth : ℕ → ℕ) (a : ℕ) (s : Netsocket) (w : World)
    → Ended (depth a) s
    → Others depth a w
    → Fine depth (place a s w)
Fine-place depth a s w h k =
    Fine-split depth a (place a s w) (placed (Ended (depth a)) a s w h) (Others-place depth a s w k)

deeper_here : (depth : ℕ → ℕ) (a : ℕ) → deeper depth a a ≡ suc (depth a)
deeper_here depth a = rw (==_refl a) refl

deeper_elsewhere : (depth : ℕ → ℕ) (a b : ℕ) → (b == a) ≡ false → deeper depth a b ≡ depth b
deeper_elsewhere depth a b e = rw e refl

-- A callback that keeps all the objects fine, whatever callbacks are on the stack.
abbrev pub IsHonest : (Event → World → World) → Type 0
IsHonest cb = (depth : ℕ → ℕ) (e : Event) (w : World) → Fine depth w → Fine depth (cb e w)

module _ (cb : Event → World → World) (honest : IsHonest cb) (depth : ℕ → ℕ) (a : ℕ) where
  -- The world in which the user's function is called, and what it leaves.
  entered-Fine :
      (event : Event) (w : World)
      → Live (depth a) (w a)
      → IsOrdered (called event (w a).connected ∷ (w a).log)
      → Others depth a w
      → Fine (deeper depth a) (place a (enter_callback event (w a)) w)
  entered-Fine event w h o k =
      Fine-place (deeper depth a) a (enter_callback event (w a)) w
        (subst (λ n. Ended n (enter_callback event (w a))) (sym (deeper_here depth a))
          (
            false,
            inl (
              (omega (arith, h.0), (h.1.0, ((touch-Live (depth a) (w a) h).1.1.0, (h.1.1.1.0, o)))),
              λ k. absurd (omega (arith, k)),
            ),
          ))
        (λ b e. subst (λ n. Ended n (w b)) (sym (deeper_elsewhere depth a b e)) (k b e))

  pub invoke_callback-Ends :
      (event : Event) (w : World)
      → Live (depth a) (w a)
      → IsOrdered (called event (w a).connected ∷ (w a).log)
      → Others depth a w
      → let v = invoke_callback (object a) cb event w in
        Ends false (depth a) (v a) × Others depth a v
  unfolding invoke_callback object
  invoke_callback-Ends event w h o k =
      let v = cb event (place a (enter_callback event (w a)) w) in
      let fine = honest (deeper depth a) event _ (entered-Fine event w h o k) in
      (
        subst (Ends false (depth a)) (sym (place_here a (leave_callback (v a)) v)) (
            leave_callback-Ends (depth a) (v a) (
              still-Live (depth a) (v a)
                (subst (λ n. Ended n (v a)) (deeper_here depth a) (fine a)))),
        Others-place depth a (leave_callback (v a)) v
            (λ b e. subst (λ n. Ended n (v b)) (deeper_elsewhere depth a b e) (fine b)),
      )

  pub disconnect-Ends :
      (reason : Option Bytes) (w : World)
      → Live (depth a) (w a)
      → Others depth a w
      → let v = disconnect (object a) cb reason w in Ends true (depth a) (v a) × Others depth a v
  unfolding disconnect object IsOrdered
  disconnect-Ends reason w h k =
      let s = closing reason (w a) in
      let u = place a s w in
      let live = placed (Live (depth a)) a s w (closing-Live reason (depth a) (w a) h) in
      let (e, o) =
        invoke_callback-Ends event_disconnect u live live.1.1.1.1 (Others-place depth a s w k) in
      let v = invoke_callback (object a) cb event_disconnect u in
      let t = record (touch (v a)) { connected = false } in
      (
        placed (Ends true (depth a)) a t v (closed-Ends (depth a) (v a) e),
        Others-place depth a t v o,
      )

  -- Whatever a function of netsocket.c ends in, on the object at `a`, all the objects are fine.
  pub within-Keeps :
      (w : World) → Others depth a w → Keeps (within (object a) cb w) (depth a) (Fine depth)
  unfolding object
  within-Keeps w o = record {
    keeps_return = λ s h. Fine-place depth a s w h o;
    keeps_invoke = λ event s h k.
        let u = place a s w in
        let (e, p) =
          invoke_callback-Ends event u (placed (Live (depth a)) a s w h)
            (placed (λ t. IsOrdered (called event t.connected ∷ t.log)) a s w k)
            (Others-place depth a s w o) in
        Fine-split depth a (invoke_callback (object a) cb event u) (false, e) p;
    keeps_disconnect = λ reason s h.
        let u = place a s w in
        let (e, p) =
          disconnect-Ends reason u (placed (Live (depth a)) a s w h) (Others-place depth a s w o) in
        Fine-split depth a (disconnect (object a) cb reason u) (true, e) p;
  }
