-- ===== src/Netsocket/Part.antt =====
-- netsocket.c: an object that is a part of a larger state, whose callback is a function on the
-- whole state.
use libc_jss.Base.{Bytes, ◌≡◌, refl, false, Option}
use libc_jss.Netsocket.{
  Event, event_disconnect, Netsocket, touch, sock_close, save_reason, enter_callback,
  leave_callback, Ways,
}

-- Where the object is in a state `W`.
pub record Lens (W : Type 0) : Type 0 where
  pub at : W → Netsocket
  pub put : Netsocket → W → W
  pub at-put : (s : Netsocket) (w : W) → at (put s w) ≡ s
  pub put-put : (s t : Netsocket) (w : W) → put s (put t w) ≡ put s w

-- The front part of `disconnect`
abbrev pub closing : Option Bytes → Netsocket → Netsocket
closing reason s = save_reason reason (sock_close (touch s))

module _ {W : Type 0} (lens : Lens W) (cb : Event → W → W) where
  unfoldable pub invoke_callback : Event → W → W
  unfolding leave_callback
  invoke_callback event w =
      let v = cb event (lens.put (enter_callback event (lens.at w)) w) in
      lens.put (leave_callback (lens.at v)) v

  -- `disconnect` with `ignore_callback` clear
  unfoldable pub disconnect : Option Bytes → W → W
  unfolding sock_close save_reason invoke_callback
  disconnect reason w =
      let v = invoke_callback event_disconnect (lens.put (closing reason (lens.at w)) w) in
      lens.put (record (touch (lens.at v)) { connected = false }) v

  abbrev pub within : W → Ways W
  within w = record {
    returns = λ s. lens.put s w;
    invokes = λ event s. invoke_callback event (lens.put s w);
    disconnects = λ reason s. disconnect reason (lens.put s w);
  }

-- The object that is the whole state.
abbrev pub itself : Lens Netsocket
itself = record { at = λ s. s; put = λ s t. s; at-put = λ s t. refl; put-put = λ s t u. refl }

abbrev pub alone : (Event → Netsocket → Netsocket) → Ways Netsocket
alone cb = record {
  returns = λ s. s;
  invokes = λ event s. invoke_callback itself cb event s;
  disconnects = λ reason s. disconnect itself cb reason s;
}
