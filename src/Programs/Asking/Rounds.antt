-- ===== src/Programs/Asking/Rounds.antt =====
-- The rounds of the program: a query is asked, worked on, answered, and asked again.
use libc_jss.Base.{
  Bool-cases, not, ℤ, length, ℕ, suc, ◌+◌, ◌*◌, ◌/◌, ◌≡◌, refl, ap, ◌∙◌, ◌⊎◌, inl, inr, Bool, true,
  false, List, arith,
}
use libc_jss.Amysql.{Outcome, is_nonzero, query_and_evasync, amysql_query, invoke_callback}
use libc_jss.Amysql.Threads.{query-Counts}
use libc_jss.Programs.Asking.{
  Program, q, cbtest, started, main, Runs, begin, ticks, works, answers, once,
}

-- The flags of the two threads, the timers, and how much has been asked and printed.
abbrev At : (busy thread back : Bool) (due asked printed : ℕ) (p : Program) → Type 0
At busy thread back due asked printed p =
    (p.amysql.busy ≡ busy)
    × (p.amysql.sent_thread ≡ thread)
    × (p.amysql.sent_main ≡ back)
    × (p.due ≡ due)
    × (p.asked ≡ asked)
    × (length p.shown ≡ printed)
    × (p.refused ≡ 0)

-- Asked, worked on, or answered, `k` queries later.
abbrev Phase : ℕ → Program → Type 0
Phase n p =
    (k : ℕ) × ((n ≡ 3 * k) × At true true false 0 (k + 1) k p
      ⊎ ((n ≡ 3 * k + 1) × At true false true 0 (k + 1) k p
          ⊎ ((n ≡ 3 * k + 2) × At false false false 1 (k + 1) (k + 1) p)))

q-At :
    (asked printed : ℕ) (p : Program)
    → At false false false 0 asked printed p
    → At true true false 0 (asked + 1) printed (q p)
unfolding amysql_query
q-At asked printed p (b, s, m, d, a, l, r) =
    rw b (refl, refl, m, d, ap (λ n. n + 1) a, l, omega (arith, r))

q-running : (p : Program) → (q p).amysql.running ≡ p.amysql.running
unfolding amysql_query
q-running p = elim (Bool-cases p.amysql.busy) [ inl b ↦ rw b refl | inr b ↦ rw b refl ]

works-Phase :
    (n : ℕ) (o : Outcome) (p : Program)
    → p.amysql.sent_thread ≡ true
    → Phase n p
    → Phase (suc n) (record p { amysql = query_and_evasync o p.amysql })
unfolding query_and_evasync
works-Phase n o p e (k, inl (c, (b, s, m, d, a, l, z))) =
    (k, inr (inl (omega (arith, c), ((query-Counts o p.amysql).0 ∙ b, refl, refl, d, a, l, z))))
works-Phase n o p e (k, inr (inl (c, (b, s, m, d, a, l, z)))) = absurd (ground (arith, e, s))
works-Phase n o p e (k, inr (inr (c, (b, s, m, d, a, l, z)))) = absurd (ground (arith, e, s))

answers-Phase :
    (n : ℕ) (p : Program)
    → p.amysql.sent_main ≡ true
    → Phase n p
    → Phase (suc n) (cbtest (record p { amysql = invoke_callback p.amysql }))
unfolding invoke_callback
answers-Phase n p e (k, inl (c, (b, s, m, d, a, l, z))) = absurd (ground (arith, e, m))
answers-Phase n p e (k, inr (inl (c, (b, s, m, d, a, l, r)))) =
    (k, inr (inr (omega (arith, c), (refl, s, refl, ap (λ n. n + 1) d, a, omega (arith, l), r))))
answers-Phase n p e (k, inr (inr (c, (b, s, m, d, a, l, z)))) = absurd (ground (arith, e, m))

once-Phase :
    (n left : ℕ) (p : Program)
    → p.due ≡ suc left
    → Phase n p
    → Phase (suc n) (q (record p { due = left }))
once-Phase n left p e (k, inl (c, (b, s, m, d, a, l, z))) = absurd (omega (arith, e, d))
once-Phase n left p e (k, inr (inl (c, (b, s, m, d, a, l, z)))) = absurd (omega (arith, e, d))
once-Phase n left p e (k, inr (inr (c, (b, s, m, d, a, l, z)))) = (
  k + 1,
  inl (
    omega (arith, c),
    q-At (k + 1) (k + 1) (record p { due = left }) (b, s, m, omega (arith, e, d), a, l, z),
  ),
)

-- The other thread was created and the rounds go on, or it was not and the first query stays.
abbrev Course : ℕ → Program → Type 0
Course n p =
    ((p.amysql.running ≡ true) × Phase n p)
    ⊎ ((p.amysql.running ≡ false) × (n ≡ 0) × At true true false 0 1 0 p)

begin-Course : (err : ℤ) → Course 0 (main err)
begin-Course err =
    let asked = q-At 0 0 (started err) (refl, refl, refl, refl, refl, refl, refl) in
    let kept : (main err).amysql.running ≡ not (is_nonzero err) = q-running (started err) in
    elim (Bool-cases (is_nonzero err)) [
      | inl e ↦ inr (kept ∙ ap not e, refl, asked)
      | inr e ↦ inl (kept ∙ ap not e, (0, inl (omega arith, asked)))
    ]

works-Course :
    (n : ℕ) (o : Outcome) (p : Program)
    → p.amysql.running ≡ true
    → p.amysql.sent_thread ≡ true
    → Course n p
    → Course (suc n) (record p { amysql = query_and_evasync o p.amysql })
unfolding query_and_evasync
works-Course n o p there e (inl (k, phase)) =
    inl ((query-Counts o p.amysql).6 ∙ k, works-Phase n o p e phase)
works-Course n o p there e (inr (k, _, _)) = absurd (ground (arith, there, k))

answers-Course :
    (n : ℕ) (p : Program)
    → p.amysql.sent_main ≡ true
    → Course n p
    → Course (suc n) (cbtest (record p { amysql = invoke_callback p.amysql }))
unfolding invoke_callback
answers-Course n p e (inl (k, phase)) = inl (k, answers-Phase n p e phase)
answers-Course n p e (inr (k, _, (b, s, m, d, _, _, _))) = absurd (ground (arith, e, m))

once-Course :
    (n left : ℕ) (p : Program)
    → p.due ≡ suc left
    → Course n p
    → Course (suc n) (q (record p { due = left }))
once-Course n left p e (inl (k, phase)) =
    inl (q-running (record p { due = left }) ∙ k, once-Phase n left p e phase)
once-Course n left p e (inr (k, _, (b, s, m, d, _, _, _))) = absurd (omega (arith, e, d))

Runs-Course : (n : ℕ) (os : List Outcome) (p : Program) → Runs n os p → Course n p
Runs-Course _ _ _ (begin err) = begin-Course err
Runs-Course _ _ _ (ticks n os p r) = Runs-Course n os p r
Runs-Course _ _ _ (works n os o p r there e) = works-Course n o p there e (Runs-Course n os p r)
Runs-Course _ _ _ (answers n os p r e) = answers-Course n p e (Runs-Course n os p r)
Runs-Course _ _ _ (once n os left p r e) = once-Course n left p e (Runs-Course n os p r)

-- One of the other thread's watcher, the main thread's watcher and the timer can run.
abbrev pub CanGoOn : Program → Type 0
CanGoOn p = (p.amysql.sent_thread ≡ true) ⊎ ((p.amysql.sent_main ≡ true) ⊎ (p.due ≡ 1))

goes_on :
    (n : ℕ) (p : Program)
    → Phase n p
    → (p.refused ≡ 0) × CanGoOn p × (p.asked ≡ n / 3 + 1) × (length p.shown ≡ (n + 1) / 3)
goes_on n p (k, turn) = elim turn [
  | inl (c, (b, s, m, d, a, l, z)) ↦ (z, inl s, omega (arith, a, c), omega (arith, l, c))
  | inr other ↦ elim other [
    | inl (c, (b, s, m, d, a, l, z)) ↦ (z, inr (inl m), omega (arith, a, c), omega (arith, l, c))
    | inr (c, (b, s, m, d, a, l, z)) ↦ (z, inr (inr d), omega (arith, a, c), omega (arith, l, c))
  ]
]

-- In every run of the program, between any two of its calls. If `amysql_init` created the other
-- thread: no query is refused; one of that thread's watcher, the main thread's watcher and the timer
-- can go on, so that the program never stops; and behind `n` of these calls it has asked `n / 3 + 1`
-- queries and printed the answers of `(n + 1) / 3`. If it did not, the error goes unseen: the first
-- query is asked and waits for a thread that does not exist, none of the three is ever called, and
-- nothing is printed.
pub asks_for_ever :
    (n : ℕ) (os : List Outcome) (p : Program)
    → Runs n os p
    → ((p.amysql.running ≡ true)
        × (p.refused ≡ 0)
        × CanGoOn p
        × (p.asked ≡ n / 3 + 1)
        × (length p.shown ≡ (n + 1) / 3))
      ⊎ ((p.amysql.running ≡ false)
          × (n ≡ 0)
          × (p.asked ≡ 1)
          × (p.amysql.sent_thread ≡ true)
          × (p.amysql.sent_main ≡ false)
          × (p.due ≡ 0)
          × (length p.shown ≡ 0))
asks_for_ever n os p r = elim (Runs-Course n os p r) [
  | inl (there, phase) ↦ let (z, on, a, l) = goes_on n p phase in inl (there, z, on, a, l)
  | inr (there, c, (b, s, m, d, a, l, z)) ↦ inr (there, c, a, s, m, d, l)
]
