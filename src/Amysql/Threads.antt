-- ===== src/Amysql/Threads.antt =====
-- The two threads: which queries are accepted, and which callbacks are made.
use libc_jss.Base.{
  take, Bytes, ℤ, ℕ, ◌+◌, ◌≡◌, refl, sym, ap, ◌∙◌, ◌⊎◌, inl, inr, true, false, not, arith,
}
use libc_jss.Amysql.{
  Amysql, Outcome, query, query_and_evasync, amysql_query, amysql_sync_query, invoke_callback,
  Options, initial, amysql_init, no_memory, connect_failed, charset_failed, query_failed, no_result,
  no_row, fetched,
}

-- The main thread makes a query, one with a callback or a synchronous one, or sets an option; the
-- other thread's watcher runs, if there is one, or the main thread's does.
pub data Step : Amysql → Amysql → Type 0 where
  ask : (cb : ℕ) (text : Bytes) (t : Amysql) → Step t (amysql_query cb text t).0
  sync :
      (text : Bytes) (outcome : Outcome) (t : Amysql) → Step t (amysql_sync_query text outcome t).0
  configure : (o : Options) (t : Amysql) → Step t (record t { option = o })
  work :
      (outcome : Outcome) (t : Amysql)
      → t.running ≡ true
      → t.sent_thread ≡ true
      → Step t (query_and_evasync outcome t)
  answer : (t : Amysql) → t.sent_main ≡ true → Step t (invoke_callback t)

pub data Reachable : Amysql → Type 0 where
  start : (o : Options) (err : ℤ) → Reachable (amysql_init err (record initial { option = o })).0
  next : (t u : Amysql) → Reachable t → Step t u → Reachable u

-- Not busy, and nothing sent; or busy, with one query on its way to the other thread, or its
-- result on its way back.
abbrev pub InOrder : Amysql → Type 0
InOrder t =
    ((t.busy ≡ false)
      × ((t.sent_thread ≡ false) × ((t.sent_main ≡ false) × (t.accepted ≡ t.delivered))))
    ⊎ ((t.busy ≡ true) × ((t.sent_main ≡ not t.sent_thread) × (t.accepted ≡ t.delivered + 1)))

amysql_query-InOrder :
    (cb : ℕ) (text : Bytes) (t : Amysql) → InOrder t → InOrder (amysql_query cb text t).0
unfolding amysql_query
amysql_query-InOrder cb text t (inl (b, (s, (m, a)))) = rw b (inr (refl, (m, ap (λ n. n + 1) a)))
amysql_query-InOrder cb text t (inr (b, h)) = rw b (inr (refl, h))

-- What the threads count by, and whether they have a signal.
abbrev pub Counts : Amysql → Amysql → Type 0
Counts t u =
    (u.busy ≡ t.busy)
    × (u.accepted ≡ t.accepted)
    × (u.delivered ≡ t.delivered)
    × (u.sent_thread ≡ t.sent_thread)
    × (u.sent_main ≡ t.sent_main)
    × (u.synced ≡ t.synced)
    × (u.running ≡ t.running)

pub query-Counts : (outcome : Outcome) (t : Amysql) → Counts t (query outcome t)
unfolding query
query-Counts no_memory t = (refl, refl, refl, refl, refl, refl, refl)
query-Counts (connect_failed message) t = (refl, refl, refl, refl, refl, refl, refl)
query-Counts (charset_failed message) t = (refl, refl, refl, refl, refl, refl, refl)
query-Counts (query_failed message) t = (refl, refl, refl, refl, refl, refl, refl)
query-Counts no_result t = (refl, refl, refl, refl, refl, refl, refl)
query-Counts no_row t = (refl, refl, refl, refl, refl, refl, refl)
query-Counts (fetched row) t = (refl, refl, refl, refl, refl, refl, refl)

-- A synchronous query stands outside the exchange between the threads.
sync-InOrder :
    (text : Bytes) (outcome : Outcome) (t : Amysql)
    → InOrder t
    → InOrder (amysql_sync_query text outcome t).0
sync-InOrder text outcome t h =
    let s = record t { querybuf = take 4094 text; synced = t.synced + 1 } in
    let (b, a, d, m, n, k, _) = query-Counts outcome s in
    elim h [
      | inl (free, (sent, (back, even))) ↦
          inl (b ∙ free, (m ∙ sent, (n ∙ back, omega (arith, a, d, even))))
      | inr (taken, (back, odd)) ↦
          inr (b ∙ taken, (n ∙ back ∙ ap not (sym m), omega (arith, a, d, odd)))
    ]

query_and_evasync-InOrder :
    (outcome : Outcome) (t : Amysql)
    → t.sent_thread ≡ true
    → InOrder t
    → InOrder (query_and_evasync outcome t)
unfolding query_and_evasync
query_and_evasync-InOrder outcome t e (inl (b, (s, h))) = absurd (ground (arith, e, s))
query_and_evasync-InOrder outcome t e (inr (b, (m, a))) =
    let counts = query-Counts outcome t in
    inr (counts.0 ∙ b, (refl, omega (arith, counts.1, counts.2, a)))

invoke_callback-InOrder :
    (t : Amysql) → t.sent_main ≡ true → InOrder t → InOrder (invoke_callback t)
unfolding invoke_callback
invoke_callback-InOrder t e (inl (b, (s, (m, a)))) = absurd (ground (arith, e, m))
invoke_callback-InOrder t e (inr (b, (m, a))) = inl (refl, (ground (arith, e, m), (refl, a)))

Step-InOrder : (t u : Amysql) → InOrder t → Step t u → InOrder u
Step-InOrder _ _ h (ask cb text t) = amysql_query-InOrder cb text t h
Step-InOrder _ _ h (sync text outcome t) = sync-InOrder text outcome t h
Step-InOrder _ _ h (configure o t) = h
Step-InOrder _ _ h (work outcome t _ e) = query_and_evasync-InOrder outcome t e h
Step-InOrder _ _ h (answer t e) = invoke_callback-InOrder t e h

-- However the two threads' watchers and the user's queries interleave, those inside a callback and
-- the synchronous ones included, each accepted query has had its one callback, except for the one
-- in progress while `busy` is set; and then it is either on its way to the other thread or on its
-- way back, never both and never lost.
pub Reachable-InOrder : (t : Amysql) → Reachable t → InOrder t
Reachable-InOrder _ (start o err) = inl (refl, (refl, (refl, refl)))
Reachable-InOrder _ (next t u r step) = Step-InOrder t u (Reachable-InOrder t r) step
