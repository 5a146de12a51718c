-- ===== src/Amysql/View.antt =====
-- What a callback sees of its row while the other thread works.
use libc_jss.Base.{
  Bool-cases, take, Bytes, ℕ, ◌+◌, ◌≤◌, ◌<◌, ◌≡◌, refl, ap, ◌∙◌, ◌⊎◌, inl, inr, true, false, arith,
}
use libc_jss.Amysql.{
  Amysql, Outcome, query_and_evasync, amysql_query, amysql_sync_query, invoke_callback,
}
use libc_jss.Amysql.Threads.{Reachable, Reachable-InOrder, query-Counts}
use libc_jss.Amysql.Progress.{Runs, here, asks, syncs, configures, works, answers}

-- Nothing but the options has changed, or a query has been accepted, or a synchronous one made.
abbrev Viewed : Amysql → Amysql → Type 0
Viewed v u = (u ≡ record v { option = u.option }) ⊎ (v.accepted + v.synced < u.accepted + u.synced)

amysql_query-accepts :
    (cb : ℕ) (text : Bytes) (u : Amysql)
    → u.busy ≡ false
    → let t = (amysql_query cb text u).0 in (t.accepted ≡ u.accepted + 1) × (t.synced ≡ u.synced)
unfolding amysql_query
amysql_query-accepts cb text u b = rw b (refl, refl)

amysql_query-le :
    (cb : ℕ) (text : Bytes) (u : Amysql)
    → let t = (amysql_query cb text u).0 in (u.accepted ≤ t.accepted) × (t.synced ≡ u.synced)
unfolding amysql_query
amysql_query-le cb text u = elim (Bool-cases u.busy) [
  | inl b ↦ rw b (omega arith, refl)
  | inr b ↦ rw b (omega arith, refl)
]

asks-Viewed :
    (v : Amysql) (cb : ℕ) (text : Bytes) (u : Amysql)
    → v.busy ≡ false
    → Viewed v u
    → Viewed v (amysql_query cb text u).0
asks-Viewed v cb text u free (inl e) =
    let idle : u.busy ≡ false = ap (λ (t : Amysql). t.busy) e ∙ free in
    let same : u.accepted + u.synced ≡ v.accepted + v.synced =
      ap (λ (t : Amysql). t.accepted + t.synced) e in
    let (one, kept) = amysql_query-accepts cb text u idle in inr (omega (arith, one, kept, same))
asks-Viewed v cb text u free (inr h) =
    let (more, kept) = amysql_query-le cb text u in inr (omega (arith, h, more, kept))

syncs-Viewed :
    (v : Amysql) (text : Bytes) (outcome : Outcome) (u : Amysql)
    → Viewed v u
    → Viewed v (amysql_sync_query text outcome u).0
syncs-Viewed v text outcome u h =
    let s = record u { querybuf = take 4094 text; synced = u.synced + 1 } in
    let (b, a, d, m, k, z, _) = query-Counts outcome s in
    elim h [
      | inl e ↦
          let same : u.accepted + u.synced ≡ v.accepted + v.synced =
            ap (λ (t : Amysql). t.accepted + t.synced) e in
          inr (omega (arith, a, z, same))
      | inr l ↦ inr (omega (arith, a, z, l))
    ]

runs-Viewed :
    (v : Amysql) (n : ℕ) (u : Amysql)
    → v.busy ≡ false
    → v.sent_thread ≡ false
    → v.sent_main ≡ false
    → Runs v n u
    → Viewed v u
unfolding query_and_evasync invoke_callback
runs-Viewed v _ _ b s m here = inl refl
runs-Viewed v _ _ b s m (configures n o u r) = elim (runs-Viewed v n u b s m r) [
  | inl k ↦ inl (ap (λ (t : Amysql). record t { option = o }) k)
  | inr h ↦ inr h
]
runs-Viewed v _ _ b s m (asks n cb text u r) = asks-Viewed v cb text u b (runs-Viewed v n u b s m r)
runs-Viewed v _ _ b s m (syncs n text outcome u r) =
    syncs-Viewed v text outcome u (runs-Viewed v n u b s m r)
runs-Viewed v _ _ b s m (works n outcome u r _ e) = elim (runs-Viewed v n u b s m r) [
  | inl k ↦ absurd (ground (arith, e, ap (λ (t : Amysql). t.sent_thread) k, s))
  | inr h ↦ let (b, a, d, m, k, z, _) = query-Counts outcome u in inr (omega (arith, h, a, z))
]
runs-Viewed v _ _ b s m (answers n u r e) = elim (runs-Viewed v n u b s m r) [
  | inl k ↦ absurd (ground (arith, e, ap (λ (t : Amysql). t.sent_main) k, m))
  | inr h ↦ inr h
]

-- From the moment at which a callback is called, in every run from there: either nothing but
-- the options has changed, so that the callback still reads the row and the error that it was given, or a new
-- query has been accepted or a synchronous one made. So a callback that makes its next query last
-- never sees its row overwritten.
pub row_kept :
    (t : Amysql) (n : ℕ) (u : Amysql)
    → Reachable t
    → t.sent_main ≡ true
    → Runs (invoke_callback t) n u
    → (u ≡ record (invoke_callback t) { option = u.option })
      ⊎ (t.accepted + t.synced < u.accepted + u.synced)
unfolding invoke_callback
row_kept t n u reachable e runs = elim (Reachable-InOrder t reachable) [
  | inl (b, (s, (m, a))) ↦ absurd (ground (arith, e, m))
  | inr (b, (m, a)) ↦ runs-Viewed (invoke_callback t) n u refl (ground (arith, e, m)) refl runs
]
