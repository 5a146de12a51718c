-- ===== src/Netsocket/Examples.antt =====
-- Two objects: an outgoing connection that is opened, connected, read from, and timed out, whose
-- callback then destroys both.
use libc_jss.Base.{codes, pos, ◌≡◌, refl, ◌⊎◌, true, false, [], ◌∷◌}
use libc_jss.Netsocket.{
  client, dir_out, is_open, event_connect, event_read, called, sent, netsocket_new, netsocket_write,
  disconnect_quietly,
}
use libc_jss.Netsocket.Start.{netsocket_connect}
use libc_jss.Netsocket.Handlers.{w_in_cb, w_out_cb, w_connect_timeout_cb}
use libc_jss.Netsocket.Script.{call_connect, call_port}
use libc_jss.Netsocket.Part.{within, invoke_callback, disconnect}
use libc_jss.Netsocket.World.{
  World, nothing, allocate, object, call_on, run, replies, adopt, Reachable, start, next, by_new,
  by_call, by_input, by_output, by_timeout,
}
use libc_jss.Netsocket.Inside.{IsQuiet, IsOrdered}
use libc_jss.Netsocket.Safety.{Reachable-freed, Reachable-live, Reachable-IsOrdered}
use libc_jss.Netsocket.Attempts.{attempt_watched}
use libc_jss.Netsocket.Opened.{IsDialled, IsDropped, IsRefused, netsocket_connect_lem}
use libc_jss.Netsocket.Samples.{answers, hello, reply, made, addressed, dialling, fresh}

abbrev talking : World
talking = w_out_cb (within (object 0) (replies reply) dialling) answers hello (dialling 0)

abbrev read_once : World
read_once = adopt 2 (w_in_cb (within (object 0) (replies reply) talking) answers hello (talking 0))

abbrev timed_out : World
timed_out = w_connect_timeout_cb (within (object 0) (replies reply) dialling) (dialling 0)

addressed-Reachable : Reachable addressed
addressed-Reachable =
    next made addressed
      (next (allocate 0 (netsocket_new 1 2) nothing) made
        (next nothing (allocate 0 (netsocket_new 1 2) nothing) start (by_new 0 1 2 nothing))
        (by_new 1 3 4 (allocate 0 (netsocket_new 1 2) nothing)))
      (by_call reply 0 answers (call_port (pos 80)) made)

dialling-Reachable : Reachable dialling
dialling-Reachable =
    next addressed dialling addressed-Reachable (by_call reply 0 answers call_connect addressed)

dialling-active : ((dialling 0).w_out ≡ true) × ((dialling 0).w_connect_timeout ≡ true)
unfolding netsocket_connect call_on allocate
dialling-active = (refl, refl)

dialling_fields :
    (is_open (dialling 0).sock ≡ true)
    × ((dialling 0).mode ≡ client)
    × ((dialling 0).direction ≡ dir_out)
    × ((dialling 0).connected ≡ false)
unfolding netsocket_connect call_on allocate
dialling_fields = (refl, refl, refl, refl)

attempt_watched_example : ((dialling 0).w_out ≡ true) × ((dialling 0).w_connect_timeout ≡ true)
attempt_watched_example =
    attempt_watched dialling dialling-Reachable 0 dialling_fields.0 dialling_fields.1
      dialling_fields.2 dialling_fields.3

talking-Reachable : Reachable talking
talking-Reachable =
    next dialling talking dialling-Reachable
      (by_output reply 0 answers hello dialling dialling-active.0)

talking-w_in : (talking 0).w_in ≡ true
unfolding netsocket_connect w_out_cb invoke_callback run call_on
talking-w_in = refl

read_once-Reachable : Reachable read_once
read_once-Reachable =
    next talking read_once talking-Reachable (by_input reply 0 2 answers hello talking talking-w_in)

timed_out-Reachable : Reachable timed_out
timed_out-Reachable =
    next dialling timed_out dialling-Reachable (by_timeout reply 0 dialling dialling-active.1)

-- The callback is told of the timeout with the freed object still written behind it.
timed_out-freed :
    ((timed_out 0).freed ≡ true)
    × ((timed_out 0).misused ≡ true)
    × ((timed_out 1).freed ≡ true)
    × ((timed_out 1).misused ≡ false)
unfolding netsocket_connect w_connect_timeout_cb disconnect run disconnect_quietly
timed_out-freed = (refl, refl, refl, refl)

Reachable-freed_example :
    (is_open (timed_out 1).sock ≡ false)
    × ((timed_out 1).w_in ≡ false)
    × ((timed_out 1).w_out ≡ false)
    × ((timed_out 1).w_connect_timeout ≡ false)
Reachable-freed_example = Reachable-freed timed_out timed_out-Reachable 1 timed_out-freed.2

read_once-freed : (read_once 0).freed ≡ false
unfolding netsocket_connect w_out_cb w_in_cb invoke_callback run netsocket_write adopt
read_once-freed = refl

Reachable-live_example :
    ((read_once 0).in_callback ≡ 0)
    × ((read_once 0).destroy_request ≡ false)
    × ((read_once 0).misused ≡ false)
    × IsQuiet (read_once 0)
Reachable-live_example = Reachable-live read_once read_once-Reachable 0 read_once-freed

read_once-log :
    (read_once 0).log ≡ sent (codes "ok") ∷ called event_read true ∷ called event_connect true ∷ []
unfolding netsocket_connect w_out_cb w_in_cb invoke_callback run netsocket_write adopt
read_once-log = refl

Reachable-IsOrdered_example : IsOrdered (read_once 0).log
Reachable-IsOrdered_example = Reachable-IsOrdered read_once read_once-Reachable 0

netsocket_connect_lem_example :
    let ways = within (object 0) (replies reply) made in
    let r = netsocket_connect ways answers fresh in
    IsDialled ways answers fresh r ⊎ IsDropped ways answers fresh r ⊎ IsRefused ways answers fresh r
netsocket_connect_lem_example =
    netsocket_connect_lem (within (object 0) (replies reply) made) answers fresh
