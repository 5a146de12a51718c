-- ===== src/Amysql/Progress.antt =====
-- The two threads: an accepted query is answered once their watchers have run twice.
use libc_jss.Base.{
  if◌then◌else◌, if_true, Bool-cases, take, Bytes, ℕ, suc, ◌+◌, ◌≤◌, ◌≡◌, refl, sym, ap, subst, ◌∙◌,
  ◌⊎◌, inl, inr, Bool, true, false, not, arith,
}
use libc_jss.Amysql.{
  amysql_is_busy, Options, Amysql, Outcome, query_and_evasync, amysql_query, amysql_sync_query,
  invoke_callback,
}
use libc_jss.Amysql.Threads.{Reachable, InOrder, Reachable-InOrder, query-Counts}

-- A run in which the watchers' functions are called `n` times.
pub data Runs (t : Amysql) : ℕ → Amysql → Type 0 where
  here : Runs t 0 t
  asks :
      (n : ℕ) (cb : ℕ) (text : Bytes) (u : Amysql)
      → Runs t n u
      → Runs t n (amysql_query cb text u).0
  syncs :
      (n : ℕ) (text : Bytes) (outcome : Outcome) (u : Amysql)
      → Runs t n u
      → Runs t n (amysql_sync_query text outcome u).0
  configures : (n : ℕ) (o : Options) (u : Amysql) → Runs t n u → Runs t n (record u { option = o })
  works :
      (n : ℕ) (outcome : Outcome) (u : Amysql)
      → Runs t n u
      → u.running ≡ true
      → u.sent_thread ≡ true
      → Runs t (suc n) (query_and_evasync outcome u)
  answers :
      (n : ℕ) (u : Amysql) → Runs t n u → u.sent_main ≡ true → Runs t (suc n) (invoke_callback u)

-- How many calls of watchers an accepted query is away from its callback.
abbrev rank : Amysql → ℕ
rank u = if u.sent_thread then 2 else 1

-- Answered, or `n` calls nearer to its callback.
abbrev Nearer : Amysql → ℕ → Amysql → Type 0
Nearer t n u =
    (t.delivered + 1 ≤ u.delivered)
    ⊎ ((u.busy ≡ true)
        × (u.delivered ≡ t.delivered)
        × (u.sent_main ≡ not u.sent_thread)
        × (n + rank u ≤ 2))

amysql_query-delivered :
    (cb : ℕ) (text : Bytes) (u : Amysql) → (amysql_query cb text u).0.delivered ≡ u.delivered
unfolding amysql_query
amysql_query-delivered cb text u = elim (Bool-cases u.busy) [ inl b ↦ rw b | inr b ↦ rw b ]

amysql_query_busy :
    (cb : ℕ) (text : Bytes) (u : Amysql) → u.busy ≡ true → (amysql_query cb text u).0 ≡ u
unfolding amysql_query
amysql_query_busy cb text u b = ap (λ (r : Amysql × Bool). r.0) (if_true u.busy _ _ b)

invoke_callback-delivered : (u : Amysql) → (invoke_callback u).delivered ≡ u.delivered + 1
unfolding invoke_callback
invoke_callback-delivered u = refl

query_and_evasync-delivered :
    (outcome : Outcome) (u : Amysql) → (query_and_evasync outcome u).delivered ≡ u.delivered
unfolding query_and_evasync
query_and_evasync-delivered outcome u = (query-Counts outcome u).2

asks-Nearer :
    (t : Amysql) (n cb : ℕ) (text : Bytes) (u : Amysql)
    → Nearer t n u
    → Nearer t n (amysql_query cb text u).0
asks-Nearer t n cb text u (inl h) = inl (omega (arith, amysql_query-delivered cb text u))
asks-Nearer t n cb text u (inr h) =
    subst (Nearer t n) (sym (amysql_query_busy cb text u h.0)) (inr h)

syncs-Nearer :
    (t : Amysql) (n : ℕ) (text : Bytes) (outcome : Outcome) (u : Amysql)
    → Nearer t n u
    → Nearer t n (amysql_sync_query text outcome u).0
syncs-Nearer t n text outcome u h =
    let s = record u { querybuf = take 4094 text; synced = u.synced + 1 } in
    let (b, a, d, m, k, z, _) = query-Counts outcome s in
    elim h [
      | inl l ↦ inl (omega (arith, l, d))
      | inr (busy, even, back, near) ↦ inr (
        b ∙ busy,
        d ∙ even,
        k ∙ back ∙ ap not (sym m),
        omega (arith, near, ap {B = ℕ} (λ (x : Bool). if x then 2 else 1) m),
      )
    ]

works-Nearer :
    (t : Amysql) (n : ℕ) (outcome : Outcome) (u : Amysql)
    → u.sent_thread ≡ true
    → Nearer t n u
    → Nearer t (suc n) (query_and_evasync outcome u)
unfolding query_and_evasync
works-Nearer t n outcome u e (inl h) = inl (omega (arith, query_and_evasync-delivered outcome u))
works-Nearer t n outcome u e (inr h) =
    let counts = query-Counts outcome u in
    inr (counts.0 ∙ h.0, counts.2 ∙ h.1, refl, ground (arith, e, h.3))

answers-Nearer :
    (t : Amysql) (n : ℕ) (u : Amysql) → Nearer t n u → Nearer t (suc n) (invoke_callback u)
answers-Nearer t n u (inl h) = inl (omega (arith, invoke_callback-delivered u))
answers-Nearer t n u (inr h) = inl (omega (arith, invoke_callback-delivered u, h.1))

runs-Nearer : (t : Amysql) (n : ℕ) (u : Amysql) → Nearer t 0 t → Runs t n u → Nearer t n u
runs-Nearer t _ _ h here = h
runs-Nearer t _ _ h (asks n cb text u r) = asks-Nearer t n cb text u (runs-Nearer t n u h r)
runs-Nearer t _ _ h (syncs n text outcome u r) =
    syncs-Nearer t n text outcome u (runs-Nearer t n u h r)
runs-Nearer t _ _ h (configures n o u r) = runs-Nearer t n u h r
runs-Nearer t _ _ h (works n outcome u r there e) =
    works-Nearer t n outcome u e (runs-Nearer t n u h r)
runs-Nearer t _ _ h (answers n u r e) = answers-Nearer t n u (runs-Nearer t n u h r)

rank-le : (b : Bool) → (if b then 2 else 1) ≤ 2
rank-le true = omega arith
rank-le false = omega arith

start-Nearer : (t : Amysql) → InOrder t → t.busy ≡ true → Nearer t 0 t
start-Nearer t (inl h) b = absurd (ground (arith, h.0, b))
start-Nearer t (inr h) b = inr (b, refl, h.1.0, omega (arith, rank-le t.sent_thread))

amysql_query-running :
    (cb : ℕ) (text : Bytes) (u : Amysql) → (amysql_query cb text u).0.running ≡ u.running
unfolding amysql_query
amysql_query-running cb text u = elim (Bool-cases u.busy) [ inl b ↦ rw b refl | inr b ↦ rw b refl ]

-- No call starts or ends the other thread.
pub runs-running : (t : Amysql) (n : ℕ) (u : Amysql) → Runs t n u → u.running ≡ t.running
unfolding query_and_evasync invoke_callback
runs-running t _ _ here = refl
runs-running t _ _ (asks n cb text u r) = amysql_query-running cb text u ∙ runs-running t n u r
runs-running t _ _ (syncs n text outcome u r) =
    let s = record u { querybuf = take 4094 text; synced = u.synced + 1 } in
    (query-Counts outcome s).6 ∙ runs-running t n u r
runs-running t _ _ (configures n o u r) = runs-running t n u r
runs-running t _ _ (works n outcome u r there e) = (query-Counts outcome u).6 ∙ runs-running t n u r
runs-running t _ _ (answers n u r e) = runs-running t n u r

-- From a reachable state in which a query is in progress, in every run and whatever the user asks
-- meanwhile: once the two watchers' functions have been called twice, its callback has been made.
-- Until then the query goes on, one of the two watchers has a signal, and the other thread runs if
-- it did, so that in a program whose other thread was created their calls are never blocked.
pub runs_deliver :
    (t : Amysql) (n : ℕ) (u : Amysql)
    → Reachable t
    → amysql_is_busy t ≡ true
    → Runs t n u
    → (t.delivered + 1 ≤ u.delivered)
      ⊎ ((n ≤ 1)
          × (amysql_is_busy u ≡ true)
          × ((u.sent_thread ≡ true) ⊎ (u.sent_main ≡ true))
          × (u.running ≡ t.running))
runs_deliver t n u r b runs =
    let there = runs-running t n u runs in
    elim (runs-Nearer t n u (start-Nearer t (Reachable-InOrder t r) b) runs) [
      | inl h ↦ inl h
      | inr h ↦ elim (Bool-cases u.sent_thread) [
        | inl s ↦ inr (ground (arith, s, h.3), h.0, inl s, there)
        | inr s ↦ inr (ground (arith, s, h.3), h.0, inr (ground (arith, s, h.2)), there)
      ]
    ]
