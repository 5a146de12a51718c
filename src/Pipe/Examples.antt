-- ===== src/Pipe/Examples.antt =====
-- A run of pipe.c with one client, and the instances of its theorems.
use libc_jss.Base.{
  Bytes, codes, pos, negsuc, ℕ, ◌<◌, ◌≡◌, refl, subst, ◌⊎◌, Bool, true, false, Option, none, some,
  List, [], ◌∷◌, arith,
}
use libc_jss.Netsocket.{is_open, Netsocket, netsocket_new, Sock, fd, server}
use libc_jss.Netsocket.Start.{
  System, einprogress, sock_accept, child_of, netsocket_listen, netsocket_connect,
}
use libc_jss.Netsocket.Handlers.{Readiness, w_in_cb}
use libc_jss.Pipe.{
  Pair, End, front_end, back_end, at, Remote, callback_of, ccallback, connect_back, input_at,
  output_at, timeout_at,
}
use libc_jss.Pipe.Program.{main, atoi, pair_of, by_input, by_output}
use libc_jss.Pipe.Alive.{sents}
use libc_jss.Pipe.Safety.{IsIdle, IsGone}
use libc_jss.Pipe.Clients.{
  Running, started, served, joins, moves, by_accept, by_turn, Runs, begins, goes_on, Runs-together,
  Runs-forwards,
}

atoi_port : atoi (codes " 6667x") ≡ pos 6667
atoi_port = refl

atoi_negative : atoi (codes "-5") ≡ negsuc 4
atoi_negative = refl

abbrev system : System
system = record {
  lookup = some (codes "10.0.0.7");
  socket = some 8;
  errno = einprogress;
  strerror = λ e. codes "error";
  setsockopt_failed = false;
  bind_failed = false;
  listen_failed = false;
  send = pos 3;
  accept = some 6;
  peer_name = none;
  peer_ip = codes "10.0.0.9";
  peer_port = 40000;
}

abbrev remote : Remote
remote = record { host = codes "irc"; port = pos 6667 }

abbrev arrives : Option Bytes → Readiness
arrives bytes = record { arrived = bytes; errno = pos 104; getsockopt_failed = false; so_error = 0 }

abbrev arguments : List Bytes
arguments = codes "pipe" ∷ codes "0.0.0.0" ∷ codes "6660" ∷ codes "irc" ∷ codes "6667" ∷ []

-- The server that `main` makes.
abbrev listening : Netsocket
listening = record (netsocket_new 0 0) {
  lhost = codes "0.0.0.0";
  lport = pos 6660;
  mode = server;
  hostent = true;
  ip = codes "10.0.0.7";
  sock = fd 8;
  w_in = true;
  w_out = true;
}

main_listens : main arguments system ≡ some (listening, remote)
unfolding main netsocket_listen
main_listens = refl

abbrev child : Netsocket
unfolding child_of
child = child_of system listening 6

-- The front end is connected, the back end too, and each reads once.
abbrev connecting : Pair
unfolding output_at
connecting =
    output_at (callback_of remote system front_end) front_end system (arrives none) (pair_of child)

abbrev connected : Pair
unfolding output_at
connected = output_at (callback_of remote system back_end) back_end system (arrives none) connecting

abbrev asked : Pair
unfolding input_at
asked =
    input_at (callback_of remote system front_end) front_end system (arrives (some (codes "hi!")))
      connected

abbrev answered : Pair
unfolding input_at
answered =
    input_at (callback_of remote system back_end) back_end system (arrives (some (codes "yes")))
      asked

abbrev hung_up : Pair
unfolding input_at
hung_up =
    input_at (callback_of remote system front_end) front_end system (arrives (some [])) connecting

abbrev accepted_one : Running
accepted_one = joins (served system (arrives none) listening).0 child (started listening)

runs_accepted : Runs arguments remote accepted_one
unfolding w_in_cb sock_accept
runs_accepted =
    goes_on (started listening) accepted_one (begins system listening main_listens)
      (by_accept system (arrives none) child (started listening) refl refl)

-- The only client is the first.
only_first : (f : ℕ → Bool) → f 0 ≡ false → (i : ℕ) → i < 1 → f i ≡ false
only_first f h i l = subst (λ j. f j ≡ false) (omega (arith, l)) h

abbrev one_connecting : Running
one_connecting = moves 0 connecting accepted_one

runs_connecting : Runs arguments remote one_connecting
unfolding child output_at connecting
runs_connecting = goes_on accepted_one one_connecting runs_accepted (
    by_turn 0 connecting accepted_one (omega arith)
      (only_first (λ i. (accepted_one.pair i).exited) refl)
      (by_output front_end system (arrives none) (pair_of child) refl refl))

abbrev one_connected : Running
one_connected = moves 0 connected one_connecting

runs_connected : Runs arguments remote one_connected
unfolding connecting libc_jss.Pipe.scallback libc_jss.Netsocket.Start.connect_to
runs_connected = goes_on one_connecting one_connected runs_connecting (
    by_turn 0 connected one_connecting (omega arith)
      (only_first (λ i. (one_connecting.pair i).exited) refl)
      (by_output back_end system (arrives none) connecting refl refl))

abbrev one_asked : Running
one_asked = moves 0 asked one_connected

runs_asked : Runs arguments remote one_asked
unfolding connected ccallback libc_jss.Pipe.scallback libc_jss.Netsocket.leave_callback child
    input_at asked
runs_asked = goes_on one_connected one_asked runs_connected (
    by_turn 0 asked one_connected (omega arith)
      (only_first (λ i. (one_connected.pair i).exited) refl)
      (by_input front_end system (arrives (some (codes "hi!"))) connected refl refl))

abbrev one_answered : Running
one_answered = moves 0 answered one_asked

runs_answered : Runs arguments remote one_answered
unfolding asked connected ccallback libc_jss.Netsocket.leave_callback libc_jss.Pipe.scallback child
    libc_jss.Netsocket.netsocket_write libc_jss.Netsocket.Start.connect_to
runs_answered = goes_on one_asked one_answered runs_asked (
    by_turn 0 answered one_asked (omega arith) (only_first (λ i. (one_asked.pair i).exited) refl)
      (by_input back_end system (arrives (some (codes "yes"))) asked refl refl))

abbrev one_hung_up : Running
one_hung_up = moves 0 hung_up one_connecting

runs_hung_up : Runs arguments remote one_hung_up
unfolding connecting libc_jss.Pipe.scallback libc_jss.Netsocket.Start.connect_to
    libc_jss.Netsocket.leave_callback child input_at hung_up
runs_hung_up = goes_on one_connecting one_hung_up runs_connecting (
    by_turn 0 hung_up one_connecting (omega arith)
      (only_first (λ i. (one_connecting.pair i).exited) refl)
      (by_input front_end system (arrives (some [])) connecting refl refl))

hung_up_freed : (hung_up.front.freed ≡ true) × (hung_up.back.freed ≡ true)
unfolding hung_up connecting libc_jss.Netsocket.leave_callback libc_jss.Pipe.scallback child
    libc_jss.Netsocket.save_reason libc_jss.Netsocket.sock_close libc_jss.Netsocket.Start.connect_to
hung_up_freed = (refl, refl)

sent_to_back : sents answered.back.log ≡ codes "hi!" ∷ []
unfolding answered connected ccallback libc_jss.Netsocket.leave_callback libc_jss.Pipe.scallback
    child libc_jss.Netsocket.netsocket_write libc_jss.Netsocket.Start.connect_to
sent_to_back = refl

Runs-together_example :
    (hung_up.exited ≡ false)
    × (hung_up.wild ≡ false)
    × ((IsIdle hung_up.front × IsIdle hung_up.back) ⊎ (IsGone hung_up.front × IsGone hung_up.back))
unfolding hung_up connecting libc_jss.Netsocket.leave_callback libc_jss.Pipe.scallback child
    libc_jss.Netsocket.save_reason libc_jss.Netsocket.sock_close
Runs-together_example = Runs-together arguments remote one_hung_up 0 runs_hung_up (omega arith) refl

Runs-forwards_example :
    (sents answered.front.log ≡ codes "yes" ∷ [])
    × ((sents answered.back.log ≡ codes "hi!" ∷ [])
        ⊎ ((sents answered.back.log ≡ []) × (is_open answered.back.sock ≡ false)))
unfolding answered connected ccallback libc_jss.Netsocket.leave_callback libc_jss.Pipe.scallback
    child libc_jss.Netsocket.netsocket_write libc_jss.Netsocket.Start.connect_to
Runs-forwards_example =
    Runs-forwards arguments remote one_answered 0 runs_answered (omega arith) refl
