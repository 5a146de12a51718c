-- ===== src/Pipe/Program.antt =====
-- pipe.c: `main`, and the runs of the event loop on one pair.
use libc_jss.Base.{
  leb, ◌==◌, if◌then◌else◌, drop_while, Bytes, ℤ, pos, negsuc, ℕ, zero, suc, ◌+◌, ◌-◌, ◌*◌, ◌≡◌,
  Bool, true, false, ◌&&◌, ◌||◌, Option, none, some, List, [], ◌∷◌,
}
use libc_jss.Netsocket.{Netsocket, netsocket_new, set_lhost, set_lport}
use libc_jss.Netsocket.Start.{System, netsocket_listen, sock_accept}
use libc_jss.Netsocket.Handlers.{Readiness, is_zero}
use libc_jss.Netsocket.Part.{alone}
use libc_jss.Pipe.{Pair, End, at, Remote, callback_of, input_at, output_at, timeout_at}

-- `isspace`
abbrev is_space : ℕ → Bool
is_space c = c == 32 || leb 9 c && leb c 13

abbrev is_digit : ℕ → Bool
is_digit c = leb b'0' c && leb c b'9'

-- The number of the leading digits, behind a number that is read already.
abbrev digits_from : ℕ → Bytes → ℕ
digits_from n [] = n
digits_from n (c ∷ s) = if is_digit c then digits_from (n * 10 + (c - b'0')) s else n

abbrev minus : ℕ → ℤ
minus zero = pos 0
minus (suc n) = negsuc n

abbrev signed_from : Bytes → ℤ
signed_from [] = pos 0
signed_from (c ∷ s) =
    if c == b'-'
    then minus (digits_from 0 s)
    else if c == b'+'
    then pos (digits_from 0 s)
    else pos (digits_from 0 (c ∷ s))

-- `atoi`, on a number that an `int` holds
abbrev pub atoi : Bytes → ℤ
atoi s = signed_from (drop_while is_space s)

-- The server and the remote host, or `none` for `exit(255)`. Where `netsocket_listen` fails, either
-- `scallback` exits or `main` does, both with 255, so that the callback does nothing here. The timer
-- that `main` starts next has a function that does nothing, and is left out.
unfoldable pub main : List Bytes → System → Option (Netsocket × Remote)
main (name ∷ lhost ∷ lport ∷ host ∷ port ∷ more) sys =
    let s = set_lport (atoi lport) (set_lhost (some lhost) (netsocket_new 0 0)) in
    let (t, result) = netsocket_listen (alone (λ event u. u)) sys s in
    if is_zero result then some (t, record { host = host; port = atoi port }) else none
main _ sys = none

-- An accepted connection; there is no back end yet.
abbrev pub pair_of : Netsocket → Pair
pair_of child = record {
  front = child;
  back = netsocket_new 1 0;
  joined = false;
  wild = false;
  exited = false;
  read_front = [];
  read_back = [];
}

-- A watcher of one end that the event loop finds active, while the program runs.
pub data Turn (remote : Remote) : Pair → Pair → Type 0 where
  by_input :
      (e : End) (sys : System) (r : Readiness) (p : Pair)
      → p.exited ≡ false
      → (at e p).w_in ≡ true
      → Turn remote p (input_at (callback_of remote sys e) e sys r p)
  by_output :
      (e : End) (sys : System) (r : Readiness) (p : Pair)
      → p.exited ≡ false
      → (at e p).w_out ≡ true
      → Turn remote p (output_at (callback_of remote sys e) e sys r p)
  by_timeout :
      (e : End) (sys : System) (p : Pair)
      → p.exited ≡ false
      → (at e p).w_connect_timeout ≡ true
      → Turn remote p (timeout_at (callback_of remote sys e) e p)

pub data Reachable (remote : Remote) : Pair → Type 0 where
  accepted :
      (sys : System) (server child : Netsocket)
      → sock_accept sys server ≡ some child
      → Reachable remote (pair_of child)
  next : (p q : Pair) → Reachable remote p → Turn remote p q → Reachable remote q
