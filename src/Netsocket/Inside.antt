-- ===== src/Netsocket/Inside.antt =====
-- What holds of a live object through every operation, inside a callback and outside.
use libc_jss.Base.{
  ltb, ◌==◌, lt→ltb, Bool-cases, Bytes, ℕ, zero, suc, ◌-◌, ◌≡◌, refl, ap, ◌∙◌, ◌⊎◌, inl, inr, Bool,
  true, false, ◌&&◌, Option, none, some, List, [], ◌∷◌, arith,
}
use libc_jss.Netsocket.{
  is_open, Event, event_error, event_connect, event_read, event_disconnect, Effect, called, sent,
  Netsocket, touch, sock_close, save_reason, disconnect_quietly, netsocket_destroy, leave_callback,
  Ways,
}
use libc_jss.Netsocket.Part.{closing}

-- No watcher is active without a socket.
abbrev pub IsQuiet : Netsocket → Type 0
IsQuiet s =
    is_open s.sock ≡ false → (s.w_in ≡ false) × (s.w_out ≡ false) × (s.w_connect_timeout ≡ false)

-- Each read event was delivered on a connected object.
unfoldable pub IsOrdered : List Effect → Type 0
IsOrdered [] = Unit
IsOrdered (called event_read c ∷ log) = (c ≡ true) × IsOrdered log
IsOrdered (called event_error c ∷ log) = IsOrdered log
IsOrdered (called event_connect c ∷ log) = IsOrdered log
IsOrdered (called event_disconnect c ∷ log) = IsOrdered log
IsOrdered (sent bytes ∷ log) = IsOrdered log

-- A live object in `n` callbacks.
abbrev pub Live : ℕ → Netsocket → Type 0
Live n s =
    (s.in_callback ≡ n)
    × ((s.freed ≡ false) × ((s.misused ≡ false) × (IsQuiet s × IsOrdered s.log)))

-- A freed object, and whether it was accessed after that.
abbrev pub Gone : Bool → Netsocket → Type 0
Gone misused s =
    (s.in_callback ≡ 0)
    × ((s.freed ≡ true)
        × ((s.misused ≡ misused) × ((is_open s.sock ≡ false) × (IsQuiet s × IsOrdered s.log))))

-- What an operation ends in: a destroy that was asked for is not left undone outside callbacks.
abbrev pub Ends : Bool → ℕ → Netsocket → Type 0
Ends misused n t = (Live n t × (n ≡ 0 → t.destroy_request ≡ false)) ⊎ ((n ≡ 0) × Gone misused t)

pub touch-Live : (n : ℕ) (s : Netsocket) → Live n s → Live n (touch s)
touch-Live n s h = (h.0, (h.1.0, (ground (arith, h.1.0, h.1.1.0), h.1.1.1)))

pub sock_close-Live :
    (n : ℕ) (s : Netsocket)
    → Live n s
    → Live n (sock_close s) × (is_open (sock_close s).sock ≡ false)
unfolding sock_close
sock_close-Live n s h = elim (Bool-cases (is_open s.sock)) [
  | inl e ↦ rw e ((h.0, (h.1.0, (h.1.1.0, (λ k. (refl, refl, refl), h.1.1.1.1)))), refl)
  | inr e ↦ rw e (h, e)
]

pub save_reason-Live :
    (reason : Option Bytes) (n : ℕ) (s : Netsocket)
    → Live n s × (is_open s.sock ≡ false)
    → Live n (save_reason reason s) × (is_open (save_reason reason s).sock ≡ false)
unfolding save_reason
save_reason-Live none n s h = h
save_reason-Live (some reason) n s h = h

pub disconnect_quietly-Live :
    (reason : Option Bytes) (n : ℕ) (s : Netsocket)
    → Live n s
    → Live n (disconnect_quietly reason s) × (is_open (disconnect_quietly reason s).sock ≡ false)
unfolding disconnect_quietly
disconnect_quietly-Live reason n s h =
    save_reason-Live reason n _ (sock_close-Live n (touch s) (touch-Live n s h))

module _ (s : Netsocket) where
  netsocket_destroy_inside :
      ltb 0 s.in_callback ≡ true → netsocket_destroy s ≡ record (touch s) { destroy_request = true }
  unfolding netsocket_destroy
  netsocket_destroy_inside e = rw e

  netsocket_destroy_outside :
      ltb 0 s.in_callback ≡ false
      → netsocket_destroy s ≡ record (disconnect_quietly none (touch s)) { freed = true }
  unfolding netsocket_destroy
  netsocket_destroy_outside e = rw e

freed-Gone :
    (s : Netsocket) → Live 0 s × (is_open s.sock ≡ false) → Gone false (record s { freed = true })
freed-Gone s (h, k) = (h.0, (refl, (h.1.1.0, (k, h.1.1.1))))

-- Inside a callback the destroy is put off; outside it frees the object.
pub netsocket_destroy-Ends : (n : ℕ) (s : Netsocket) → Live n s → Ends false n (netsocket_destroy s)
netsocket_destroy-Ends zero s h = rw (netsocket_destroy_outside s (ap (ltb 0) h.0)) (
    inr (
      refl,
      freed-Gone (disconnect_quietly none (touch s))
          (disconnect_quietly-Live none 0 (touch s) (touch-Live 0 s h)),
    ))
netsocket_destroy-Ends (suc n) s h =
    rw (netsocket_destroy_inside s (ap (ltb 0) h.0 ∙ lt→ltb 0 (suc n) (omega arith)))
      (inl (touch-Live (suc n) s h, λ e. ground (arith, e)))

left : Netsocket → Netsocket
left s = record (touch s) { in_callback = s.in_callback - 1 }

left-Live : (n : ℕ) (s : Netsocket) → Live (suc n) s → Live n (left s)
unfolding left
left-Live n s h = (omega (arith, h.0), (touch-Live (suc n) s h).1)

module _ (s : Netsocket) where
  asked : Bool
  unfolding left
  asked = (left s).destroy_request && (left s).in_callback == 0

  leave_callback-asked : asked ≡ true → leave_callback s ≡ netsocket_destroy (left s)
  unfolding leave_callback left asked
  leave_callback-asked e = rw e

  leave_callback_kept : asked ≡ false → leave_callback s ≡ left s
  unfolding leave_callback left asked
  leave_callback_kept e = rw e

kept_lem :
    (n : ℕ) (s : Netsocket)
    → (left s).in_callback ≡ n
    → asked s ≡ false
    → n ≡ 0
    → (left s).destroy_request ≡ false
unfolding left asked
kept_lem n s h e k = ground (arith, h, e, k)

pub leave_callback-Ends : (n : ℕ) (s : Netsocket) → Live (suc n) s → Ends false n (leave_callback s)
leave_callback-Ends n s h = elim (Bool-cases (asked s)) [
  | inl e ↦ rw (leave_callback-asked s e) (netsocket_destroy-Ends n (left s) (left-Live n s h))
  | inr e ↦ rw (leave_callback_kept s e) (inl (left-Live n s h, kept_lem n s (left-Live n s h).0 e))
]

-- `obj->connected = 0` is behind the callback, which may have freed the object.
pub closed-Ends :
    (n : ℕ) (s : Netsocket) → Ends false n s → Ends true n (record (touch s) { connected = false })
closed-Ends n s (inl (h, k)) = inl (touch-Live n s h, k)
closed-Ends n s (inr (e, h)) = inr (e, (h.0, (h.1.0, (ground (arith, h.1.0, h.1.1.0), h.1.1.1))))

pub closing-Live :
    (reason : Option Bytes) (n : ℕ) (s : Netsocket) → Live n s → Live n (closing reason s)
closing-Live reason n s h =
    (save_reason-Live reason n (sock_close (touch s))
      (sock_close-Live n (touch s) (touch-Live n s h))).0

abbrev pub Ended : ℕ → Netsocket → Type 0
Ended n t = (misused : Bool) × Ends misused n t

-- Inside a callback nothing frees the object.
pub still-Live : (n : ℕ) (s : Netsocket) → Ended (suc n) s → Live (suc n) s
still-Live n s (misused, inl h) = h.0
still-Live n s (misused, inr h) = absurd (omega (arith, h.0))

-- What the three ways out of a function make hold of the state, for an object in `n` callbacks.
pub record Keeps {W : Type 0} (ways : Ways W) (n : ℕ) (P : W → Type 0) : Type 0 where
  pub keeps_return : (s : Netsocket) → Ended n s → P (ways.returns s)
  pub keeps_invoke :
      (event : Event) (s : Netsocket)
      → Live n s
      → IsOrdered (called event s.connected ∷ s.log)
      → P (ways.invokes event s)
  pub keeps_disconnect :
      (reason : Option Bytes) (s : Netsocket) → Live n s → P (ways.disconnects reason s)
