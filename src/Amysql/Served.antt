-- ===== src/Amysql/Served.antt =====
-- From the call of `amysql_query` to the call of its callback: which text the server is given, which
-- callback is called, and with what.
use libc_jss.Base.{
  if◌then◌else◌, if_true, take, drop, Bytes, ℤ, ℕ, ◌≡◌, refl, sym, ap, ap₂, subst, ◌∙◌, ◌⊎◌, inl,
  inr, Bool, true, false, List, [], ◌∷◌, map, arith,
}
use libc_jss.Amysql.{
  Options, Amysql, Outcome, query, query_and_evasync, amysql_query, invoke_callback, initial,
  amysql_init, is_nonzero, no_memory, connect_failed, charset_failed, query_failed, no_result,
  no_row, fetched,
}
use libc_jss.Amysql.Threads.{query-Counts}
use libc_jss.Amysql.Rows.{Arguments, arguments, AllFit, is_stale, all_expected, query-arguments}

-- The runs with no synchronous query: the queries that were accepted, with callback and text; the
-- texts that the other thread has worked on, and how each of these queries ended; and the callbacks
-- that were called, with their arguments. The latest stands first.
pub data Exchange
    : List (ℕ × Bytes) → List (Bytes × Outcome) → List (ℕ × Arguments) → Amysql → Type 0 where
  start :
      (o : Options) (err : ℤ)
      → Exchange [] [] [] (amysql_init err (record initial { option = o })).0
  asks :
      (asked : List (ℕ × Bytes)) (worked : List (Bytes × Outcome)) (called : List (ℕ × Arguments))
      (cb : ℕ) (text : Bytes) (t : Amysql)
      → Exchange asked worked called t
      → Exchange
          (if (amysql_query cb text t).1 then (cb, text) ∷ asked else asked)
          worked
          called
          (amysql_query cb text t).0
  configures :
      (asked : List (ℕ × Bytes)) (worked : List (Bytes × Outcome)) (called : List (ℕ × Arguments))
      (o : Options) (t : Amysql)
      → Exchange asked worked called t
      → Exchange asked worked called (record t { option = o })
  works :
      (asked : List (ℕ × Bytes)) (worked : List (Bytes × Outcome)) (called : List (ℕ × Arguments))
      (o : Outcome) (t : Amysql)
      → Exchange asked worked called t
      → t.running ≡ true
      → t.sent_thread ≡ true
      → Exchange asked ((t.querybuf, o) ∷ worked) called (query_and_evasync o t)
  answers :
      (asked : List (ℕ × Bytes)) (worked : List (Bytes × Outcome)) (called : List (ℕ × Arguments))
      (t : Amysql)
      → Exchange asked worked called t
      → t.sent_main ≡ true
      → Exchange asked worked ((t.callback, arguments t) ∷ called) (invoke_callback t)

-- The texts that are asked, as `querybuf` has room for them.
abbrev pub texts_of : List (ℕ × Bytes) → List Bytes
texts_of asked = map (λ (x : ℕ × Bytes). take 4094 x.1) asked

abbrev pub firsts : {A B : Type 0} → List (A × B) → List A
firsts {A} {B} l = map (λ (x : A × B). x.0) l

abbrev pub seconds : {A B : Type 0} → List (A × B) → List B
seconds {A} {B} l = map (λ (x : A × B). x.1) l

abbrev Flags : (busy thread back : Bool) (t : Amysql) → Type 0
Flags busy thread back t = (t.busy ≡ busy) × (t.sent_thread ≡ thread) × (t.sent_main ≡ back)

module _ (asked : List (ℕ × Bytes)) (worked : List (Bytes × Outcome))
    (called : List (ℕ × Arguments)) where
  abbrev Idle : Amysql → Type 0
  Idle t =
      Flags false false false t
      × (firsts worked ≡ texts_of asked)
      × (firsts called ≡ firsts asked)
      × (seconds called ≡ all_expected (seconds worked))

  abbrev OnItsWay : Amysql → Type 0
  OnItsWay t =
      Flags true true false t
      × (t.querybuf ∷ firsts worked ≡ texts_of asked)
      × (t.callback ∷ firsts called ≡ firsts asked)
      × (seconds called ≡ all_expected (seconds worked))

  abbrev OnItsWayBack : Amysql → Type 0
  OnItsWayBack t =
      Flags true false true t
      × (firsts worked ≡ texts_of asked)
      × (t.callback ∷ firsts called ≡ firsts asked)
      × (arguments t ∷ seconds called ≡ all_expected (seconds worked))

  abbrev Stands : Amysql → Type 0
  Stands t =
      (is_nonzero t.error_num ≡ is_stale (seconds worked))
      × (Idle t ⊎ (OnItsWay t ⊎ OnItsWayBack t))

query-callback : (o : Outcome) (t : Amysql) → (query o t).callback ≡ t.callback
unfolding query
query-callback no_memory t = refl
query-callback (connect_failed message) t = refl
query-callback (charset_failed message) t = refl
query-callback (query_failed message) t = refl
query-callback no_result t = refl
query-callback no_row t = refl
query-callback (fetched row) t = refl

module _ (asked : List (ℕ × Bytes)) (worked : List (Bytes × Outcome))
    (called : List (ℕ × Arguments)) where
  refused-Stands :
      (cb : ℕ) (text : Bytes) (t : Amysql)
      → t.busy ≡ true
      → Stands asked worked called t
      → Stands
          (if (amysql_query cb text t).1 then (cb, text) ∷ asked else asked)
          worked
          called
          (amysql_query cb text t).0
  unfolding amysql_query
  refused-Stands cb text t b h =
      subst
        (λ (r : Amysql × Bool).
          Stands (if r.1 then (cb, text) ∷ asked else asked) worked called r.0)
        (sym (if_true t.busy _ _ b)) h

  asks-Stands :
      (cb : ℕ) (text : Bytes) (t : Amysql)
      → Stands asked worked called t
      → Stands
          (if (amysql_query cb text t).1 then (cb, text) ∷ asked else asked)
          worked
          called
          (amysql_query cb text t).0
  unfolding amysql_query
  asks-Stands cb text t (stale, h) = elim h [
    | inl ((b, s, m), w, c, e) ↦
        rw b (
          stale,
          inr (inl ((refl, refl, m), ap (λ l. take 4094 text ∷ l) w, ap (λ l. cb ∷ l) c, e)),
        )
    | inr (inl k) ↦ refused-Stands cb text t k.0.0 (stale, inr (inl k))
    | inr (inr k) ↦ refused-Stands cb text t k.0.0 (stale, inr (inr k))
  ]

  works-Stands :
      (o : Outcome) (t : Amysql)
      → AllFit (o ∷ seconds worked)
      → t.sent_thread ≡ true
      → Stands asked worked called t
      → Stands asked ((t.querybuf, o) ∷ worked) called (query_and_evasync o t)
  unfolding query_and_evasync
  works-Stands o t (fits, _) e (stale, h) =
      let (given, later) = query-arguments o (seconds worked) t fits stale in
      elim h [
        | inl ((b, s, m), w, c, k) ↦ absurd (ground (arith, e, s))
        | inr (inl ((b, s, m), w, c, k)) ↦ (
          later,
          inr (
              inr (
                ((query-Counts o t).0 ∙ b, refl, refl),
                w,
                ap (λ x. x ∷ firsts called) (query-callback o t) ∙ c,
                ap₂ (λ a l. a ∷ l) given k,
              )),
        )
        | inr (inr ((b, s, m), w, c, k)) ↦ absurd (ground (arith, e, s))
      ]

  answers-Stands :
      (t : Amysql)
      → t.sent_main ≡ true
      → Stands asked worked called t
      → Stands asked worked ((t.callback, arguments t) ∷ called) (invoke_callback t)
  unfolding invoke_callback
  answers-Stands t e (stale, h) = elim h [
    | inl ((b, s, m), w, c, k) ↦ absurd (ground (arith, e, m))
    | inr (inl ((b, s, m), w, c, k)) ↦ absurd (ground (arith, e, m))
    | inr (inr ((b, s, m), w, c, k)) ↦ (stale, inl ((refl, s, refl), w, c, k))
  ]

Exchange-Stands :
    (asked : List (ℕ × Bytes)) (worked : List (Bytes × Outcome)) (called : List (ℕ × Arguments))
    (t : Amysql)
    → AllFit (seconds worked)
    → Exchange asked worked called t
    → Stands asked worked called t
Exchange-Stands _ _ _ _ fits (start o err) = (refl, inl ((refl, refl, refl), refl, refl, refl))
Exchange-Stands _ _ _ _ fits (asks asked worked called cb text t x) =
    asks-Stands asked worked called cb text t (Exchange-Stands asked worked called t fits x)
Exchange-Stands _ _ _ _ fits (configures asked worked called o t x) =
    Exchange-Stands asked worked called t fits x
Exchange-Stands _ _ _ _ fits (works asked worked called o t x _ e) =
    works-Stands asked worked called o t fits e (Exchange-Stands asked worked called t fits.1 x)
Exchange-Stands _ _ _ _ fits (answers asked worked called t x e) =
    answers-Stands asked worked called t e (Exchange-Stands asked worked called t fits x)

-- In every run of the two threads with no synchronous query, in which each row has room in the
-- buffers: the other thread works on exactly the texts of the accepted queries, cut to 4094 bytes,
-- once each and in their order, but for a query that is still on its way to it; the callbacks that
-- are called are those that were given with these queries, in the same order, but for the one of
-- the query in progress; and each is given the row of its own query, whole, with no message or, if a
-- query has failed and none since then ended without a row, an empty one; or the message with which
-- its own query failed: whole if it is shorter than 256 bytes, and else as 256 bytes of it with no
-- end, behind which the callback reads on.
pub served :
    (asked : List (ℕ × Bytes)) (worked : List (Bytes × Outcome)) (called : List (ℕ × Arguments))
    (t : Amysql)
    → AllFit (seconds worked)
    → Exchange asked worked called t
    → (firsts worked ≡ drop (if t.sent_thread then 1 else 0) (texts_of asked))
      × (firsts called ≡ drop (if t.busy then 1 else 0) (firsts asked))
      × (seconds called ≡ drop (if t.sent_main then 1 else 0) (all_expected (seconds worked)))
served asked worked called t fits x = elim (Exchange-Stands asked worked called t fits x).1 [
  | inl ((b, s, m), w, c, k) ↦ rw (b, s, m) (w, c, k)
  | inr (inl ((b, s, m), w, c, k)) ↦ rw (b, s, m) (ap (λ l. drop 1 l) w, ap (λ l. drop 1 l) c, k)
  | inr (inr ((b, s, m), w, c, k)) ↦ rw (b, s, m) (w, ap (λ l. drop 1 l) c, ap (λ l. drop 1 l) k)
]
