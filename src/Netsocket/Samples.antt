-- ===== src/Netsocket/Samples.antt =====
-- Answers of the system, a callback, and two objects of which one connects.
use libc_jss.Base.{codes, pos, false, none, some}
use libc_jss.Netsocket.{
  Event, event_error, event_connect, event_read, event_disconnect, Netsocket, netsocket_new,
}
use libc_jss.Netsocket.Start.{System}
use libc_jss.Netsocket.Handlers.{Readiness}
use libc_jss.Netsocket.Script.{call_connect, call_write, call_destroy, call_port}
use libc_jss.Netsocket.World.{World, nothing, allocate, call_on, replies, Script, done, call}

abbrev pub answers : System
answers = record {
  lookup = some (codes "10.0.0.1");
  socket = some 6;
  errno = 115;
  strerror = λ e. codes "error";
  setsockopt_failed = false;
  bind_failed = false;
  listen_failed = false;
  send = pos 2;
  accept = some 8;
  peer_name = none;
  peer_ip = codes "10.0.0.9";
  peer_port = 5555;
}

abbrev pub hello : Readiness
hello = record {
  arrived = some (codes "hello");
  errno = pos 0;
  getsockopt_failed = false;
  so_error = 0;
}

-- The callback answers a read event, and destroys both objects when it is told of a disconnect.
abbrev pub reply : Event → Script
reply event_read = call 0 answers (call_write (codes "ok")) done done
reply event_disconnect = call 1 answers call_destroy done (call 0 answers call_destroy done done)
reply event_connect = done
reply event_error = done

abbrev pub made : World
made = allocate 1 (netsocket_new 3 4) (allocate 0 (netsocket_new 1 2) nothing)

abbrev pub addressed : World
addressed = call_on (replies reply) 0 answers (call_port (pos 80)) made

abbrev pub dialling : World
dialling = call_on (replies reply) 0 answers call_connect addressed

abbrev pub fresh : Netsocket
fresh = record (netsocket_new 1 2) { port = pos 80; host = codes "h" }
