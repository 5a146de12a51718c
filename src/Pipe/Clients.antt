-- ===== src/Pipe/Clients.antt =====
-- pipe.c: the whole program, with its server and any number of clients.
use libc_jss.Base.{
  ◌==◌, if◌then◌else◌, if_true, if_false, Bool-cases, Bytes, ℕ, ◌+◌, ◌<◌, ◌≡◌, sym, subst, ◌⊎◌, inl,
  inr, true, false, Option, none, some, List, [], arith,
}
use libc_jss.Netsocket.{is_open, Netsocket, netsocket_new}
use libc_jss.Netsocket.Start.{System}
use libc_jss.Netsocket.Handlers.{Readiness, w_in_cb}
use libc_jss.Netsocket.Part.{alone}
use libc_jss.Netsocket.Turns.{w_in_cb-accepted}
use libc_jss.Pipe.{Pair, Remote}
use libc_jss.Pipe.Program.{main, pair_of, Turn, Reachable, accepted, next}
use libc_jss.Pipe.Alive.{sents}
use libc_jss.Pipe.Safety.{IsIdle, IsGone, Reachable-together, Reachable-forwards}

-- The server, the number of clients so far, and the pair of each.
pub record Running : Type 0 where
  pub server : Netsocket
  pub clients : ℕ
  pub pair : ℕ → Pair

abbrev pub started : Netsocket → Running
started server = record { server = server; clients = 0; pair = λ i. pair_of (netsocket_new 0 0) }

-- `w_in_cb` of the server, whose callback is not called there
abbrev pub served : System → Readiness → Netsocket → Netsocket × Option Netsocket
served sys r s = w_in_cb (alone (λ event u. u)) sys r s

abbrev pub joins : Netsocket → Netsocket → Running → Running
joins server child p = record {
  server = server;
  clients = p.clients + 1;
  pair = λ i. if i == p.clients then pair_of child else p.pair i;
}

abbrev pub moves : ℕ → Pair → Running → Running
moves j q p = record p { pair = λ i. if i == j then q else p.pair i }

-- While no callback has ended the program, the server's input watcher is active, or a pair takes a
-- turn. A listening socket is never ready for output.
pub data Step (remote : Remote) : Running → Running → Type 0 where
  by_accept :
      (sys : System) (r : Readiness) (child : Netsocket) (p : Running)
      → p.server.w_in ≡ true
      → (served sys r p.server).1 ≡ some child
      → Step remote p (joins (served sys r p.server).0 child p)
  by_refusal :
      (sys : System) (r : Readiness) (p : Running)
      → p.server.w_in ≡ true
      → (served sys r p.server).1 ≡ none
      → Step remote p (record p { server = (served sys r p.server).0 })
  by_turn :
      (j : ℕ) (q : Pair) (p : Running)
      → j < p.clients
      → ((i : ℕ) → i < p.clients → (p.pair i).exited ≡ false)
      → Turn remote (p.pair j) q
      → Step remote p (moves j q p)

-- The runs of `main` with these arguments.
pub data Runs (args : List Bytes) (remote : Remote) : Running → Type 0 where
  begins :
      (sys : System) (server : Netsocket)
      → main args sys ≡ some (server, remote)
      → Runs args remote (started server)
  goes_on : (p q : Running) → Runs args remote p → Step remote p q → Runs args remote q

Step-Reachable :
    (remote : Remote) (p q : Running)
    → ((i : ℕ) → i < p.clients → Reachable remote (p.pair i))
    → Step remote p q
    → (i : ℕ) → i < q.clients
    → Reachable remote (q.pair i)
Step-Reachable remote _ _ h (by_accept sys r child p w e) i l = elim (Bool-cases (i == p.clients)) [
  | inl c ↦
      subst (Reachable remote) (sym (if_true (i == p.clients) _ _ c)) (
        accepted sys p.server child
          (w_in_cb-accepted (alone (λ event u. u)) sys r p.server child e))
  | inr c ↦
      subst (Reachable remote) (sym (if_false (i == p.clients) _ _ c)) (h i (ground (arith, l, c)))
]
Step-Reachable remote _ _ h (by_refusal sys r p w e) i l = h i l
Step-Reachable remote _ _ h (by_turn j q p k n turn) i l = elim (Bool-cases (i == j)) [
  | inl c ↦ subst (Reachable remote) (sym (if_true (i == j) _ _ c)) (next (p.pair j) q (h j k) turn)
  | inr c ↦ subst (Reachable remote) (sym (if_false (i == j) _ _ c)) (h i l)
]

Runs-Reachable :
    (args : List Bytes) (remote : Remote) (p : Running)
    → Runs args remote p
    → (i : ℕ) → i < p.clients
    → Reachable remote (p.pair i)
Runs-Reachable args remote _ (begins sys server e) i l = absurd (omega (arith, l))
Runs-Reachable args remote _ (goes_on p q r step) i l =
    Step-Reachable remote p q (Runs-Reachable args remote p r) step i l

-- In every run of `main`, for each of its clients and between any two turns: once the client's
-- connection is joined to one to the remote host, the pair has not ended the program, the string of
-- `main` was never used as an object, and each of its ends is freed exactly when the other is:
-- either both are not freed, in no callback, and no destroy is put off, or both are freed and have
-- no socket and no active watcher. So no turn and no callback meets an end whose `userdata` is
-- freed.
pub Runs-together :
    (args : List Bytes) (remote : Remote) (p : Running) (i : ℕ)
    → Runs args remote p
    → i < p.clients
    → (p.pair i).joined ≡ true
    → ((p.pair i).exited ≡ false)
      × ((p.pair i).wild ≡ false)
      × ((IsIdle (p.pair i).front × IsIdle (p.pair i).back)
          ⊎ (IsGone (p.pair i).front × IsGone (p.pair i).back))
Runs-together args remote p i r l j =
    Reachable-together remote (p.pair i) (Runs-Reachable args remote p r i l) j

-- In every run of `main`, for each of its clients and between any two turns, once its connection is
-- joined to one to the remote host: the bytes that were given to `send` at the front end are those
-- that were read at the back end, in the same pieces and the same order; and the back end was given
-- all that was read at the front end, or it has no socket and was never given anything.
pub Runs-forwards :
    (args : List Bytes) (remote : Remote) (p : Running) (i : ℕ)
    → Runs args remote p
    → i < p.clients
    → (p.pair i).joined ≡ true
    → (sents (p.pair i).front.log ≡ (p.pair i).read_back)
      × ((sents (p.pair i).back.log ≡ (p.pair i).read_front)
          ⊎ ((sents (p.pair i).back.log ≡ []) × (is_open (p.pair i).back.sock ≡ false)))
Runs-forwards args remote p i r l j =
    Reachable-forwards remote (p.pair i) (Runs-Reachable args remote p r i l) j
