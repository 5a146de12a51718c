-- ===== src/Tracer/Apart.antt =====
-- The trace files that several tracers of a directory have open at the same time.
use libc_jss.Base.{
  ◌==◌, if_true, if_false, ==_iff, Bool-cases, length, Bytes, ℕ, ◌+◌, ◌^◌, ◌≤◌, ◌<◌, ◌≡◌, refl, sym,
  ap, subst, ◌∙◌, ◌≢◌, ◌⊎◌, inl, inr, true, false, some, List, [], ◌∷◌, arith,
}
use libc_jss.Tracer.{
  Tracer, Files, Answers, path_of, new_id, tracer_open, tracer_close, tracer_printf,
  tracer_set_start_id, Op, op_open, op_close, op_printf, op_set_start_id, op_get_id_as_string,
  perform,
}
use libc_jss.Tracer.Numbering.{
  Directory, perform_by, perform-Next, reserve_next, tracer_close_closed, IsNamed, perform-IsNamed,
}
use libc_jss.Tracer.Paths.{path_of_distinct}
use libc_jss.Tracer.Names.{IsShared, perform_by-IsShared}

-- With `n` in `.seq`, a file that is open behind a call was open before, or is named by `n + 1`.
Origin : ℕ → Tracer → Tracer × Files → Type 0
Origin n t r =
    r.0.file ≡ true
    → ((t.file ≡ true) × (r.0.id ≡ t.id)) ⊎ ((r.0.id ≡ n + 1) × (r.1.seq ≡ some (n + 1)))

module _ (n : ℕ) (t : Tracer) (fs : Files) (e : fs.seq ≡ some n) (h : 0 < n)
    (k : n + 1 < 2 ^ 64) where
  tracer_open-Origin : (a : Answers) → Origin n t (tracer_open a t fs)
  unfolding Origin tracer_open new_id
  tracer_open-Origin a = elim (Bool-cases (length t.path == 0)) [
    | inl p ↦ rw p (λ o. inl (o, refl))
    | inr p ↦ elim (Bool-cases a.opens_seq) [
      | inl q ↦
          let next = reserve_next (tracer_close t).0.start_id n h k in
          rw (p, q, e) (λ o. inr (next, ap some next))
      | inr q ↦ rw (p, q) (λ o. absurd (ground (arith, tracer_close_closed t, o)))
    ]
  ]

  perform-Origin : (op : Op) → Origin n t (perform op t fs)
  unfolding Origin perform tracer_printf tracer_set_start_id
  perform-Origin (op_open a) = tracer_open-Origin a
  perform-Origin op_close = λ o. absurd (ground (arith, tracer_close_closed t, o))
  perform-Origin (op_printf formatted) = λ o. inl (o, refl)
  perform-Origin (op_set_start_id start_id) = λ o. inl (o, refl)
  perform-Origin op_get_id_as_string = λ o. inl (o, refl)

-- Open files are named by numbers up to `n`, two of them by different numbers.
pub record Separate (n : ℕ) (d : Directory) : Type 0 where
  pub is_named : (i : ℕ) → IsNamed (d.0 i)
  pub in_range : (i : ℕ) → (d.0 i).file ≡ true → (d.0 i).id ≤ n
  pub differ :
      (i j : ℕ) → i ≢ j → (d.0 i).file ≡ true → (d.0 j).file ≡ true → (d.0 i).id ≢ (d.0 j).id

module _ (i : ℕ) (op : Op) (n : ℕ) (d : Directory) (s : Separate n d) (e : d.1.seq ≡ some n)
    (h : 0 < n) (k : n + 1 < 2 ^ 64) where
  abbrev after : Directory
  after = perform_by i op d

  -- The tracer at `j`, which is the one called, or is left as it was.
  called_or :
      (j : ℕ)
      → ((j ≡ i) × (after.0 j ≡ (perform op (d.0 i) d.1).0)) ⊎ ((j ≢ i) × (after.0 j ≡ d.0 j))
  unfolding perform_by
  called_or j = elim (Bool-cases (j == i)) [
    | inl q ↦ inl ((==_iff j i).0 q, if_true (j == i) _ _ q)
    | inr q ↦ inr (λ c. ground (arith, q, c), if_false (j == i) _ _ q)
  ]

  IsNamed-after : (j : ℕ) → IsNamed (after.0 j)
  IsNamed-after j = elim (called_or j) [
    | inl (q, c) ↦ subst IsNamed (sym c) (perform-IsNamed op (d.0 i) d.1 (s.is_named i))
    | inr (q, c) ↦ subst IsNamed (sym c) (s.is_named j)
  ]

  -- Where an open file at `j` comes from, with `m` in `.seq`.
  abbrev From : ℕ → ℕ → Type 0
  From m j =
      (((d.0 j).file ≡ true) × ((after.0 j).id ≡ (d.0 j).id))
      ⊎ ((j ≡ i) × ((after.0 j).id ≡ n + 1) × (m ≡ n + 1))

  after-From : (m j : ℕ) → after.1.seq ≡ some m → (after.0 j).file ≡ true → From m j
  unfolding perform_by Origin
  after-From m j seq o = elim (called_or j) [
    | inl (q, c) ↦
        elim (perform-Origin n (d.0 i) d.1 e h k op (ap (λ (t : Tracer). t.file) (sym c) ∙ o)) [
          | inl (was, id) ↦ inl (
            ap (λ x. (d.0 x).file) q ∙ was,
            ap (λ (t : Tracer). t.id) c ∙ id ∙ sym (ap (λ x. (d.0 x).id) q),
          )
          | inr (id, seq') ↦ inr (q, ap (λ (t : Tracer). t.id) c ∙ id, ground (arith, seq, seq'))
        ]
    | inr (q, c) ↦ inl (ap (λ (t : Tracer). t.file) (sym c) ∙ o, ap (λ (t : Tracer). t.id) c)
  ]

  module _ (m : ℕ) (n_or_more : n ≤ m) (seq : after.1.seq ≡ some m) where
    range_after : (j : ℕ) → (after.0 j).file ≡ true → (after.0 j).id ≤ m
    range_after j o = elim (after-From m j seq o) [
      | inl (was, id) ↦ let r = s.in_range j was in omega (arith, r, id, n_or_more)
      | inr (q, id, top) ↦ omega (arith, id, top)
    ]

    differ_after :
        (j l : ℕ)
        → j ≢ l
        → (after.0 j).file ≡ true
        → (after.0 l).file ≡ true
        → (after.0 j).id ≢ (after.0 l).id
    differ_after j l d' o p same = elim (after-From m j seq o) [
      | inl (was_j, id_j) ↦ elim (after-From m l seq p) [
        | inl (was_l, id_l) ↦ s.differ j l d' was_j was_l (sym id_j ∙ same ∙ id_l)
        | inr (q, id_l, top) ↦
            let r = s.in_range j was_j in absurd (omega (arith, r, id_j, id_l, same))
      ]
      | inr (q_j, id_j, top) ↦ elim (after-From m l seq p) [
        | inl (was_l, id_l) ↦
            let r = s.in_range l was_l in absurd (omega (arith, r, id_j, id_l, same))
        | inr (q_l, id_l, top') ↦ d' (q_j ∙ sym q_l)
      ]
    ]

    Separate-after : Separate m after
    Separate-after = record {
      is_named = IsNamed-after;
      in_range = range_after;
      differ = differ_after;
    }

-- The directory behind a list of calls.
unfoldable pub runs : List (ℕ × Op) → Directory → Directory
runs [] d = d
runs ((i, op) ∷ ops) d = runs ops (perform_by i op d)

runs-Separate :
    (ops : List (ℕ × Op)) (n : ℕ) (d : Directory)
    → Separate n d
    → d.1.seq ≡ some n
    → 0 < n
    → n + length ops < 2 ^ 64
    → (m : ℕ) × ((m < 2 ^ 64) × Separate m (runs ops d))
unfolding runs perform_by
runs-Separate [] n d s e h k = (n, (omega (arith, k), s))
runs-Separate ((i, op) ∷ ops) n d s e h k =
    let small : n + 1 < 2 ^ 64 = omega (arith, k) in
    let next = perform_by i op d in
    elim (perform-Next op n (d.0 i) d.1 e h small) [
      | inl (off, seq) ↦
          runs-Separate ops n next (Separate-after i op n d s e h small n (omega arith) seq) seq h
            (omega (arith, k))
      | inr (on, (id, seq)) ↦
          runs-Separate ops (n + 1) next
            (Separate-after i op n d s e h small (n + 1) (omega arith) seq) seq (omega (arith, h))
            (omega (arith, k))
    ]

runs-IsShared :
    (path : Bytes) (ops : List (ℕ × Op)) (d : Directory)
    → IsShared path d
    → IsShared path (runs ops d)
unfolding runs
runs-IsShared path [] d h = h
runs-IsShared path ((i, op) ∷ ops) d h =
    runs-IsShared path ops (perform_by i op d) (perform_by-IsShared path i op d h)

-- For any number of tracers on one directory that start with no file open, with a number in `.seq`,
-- 64 bits enough for the numbers and room for 21 bytes behind the directory's path: behind any
-- list of their calls, two tracers that have files open at the same time have different files
-- open, so that what one prints never goes to the file of another.
pub runs_apart :
    (path : Bytes) (ops : List (ℕ × Op)) (n : ℕ) (d : Directory)
    → length path + 21 ≤ 4095
    → IsShared path d
    → ((i : ℕ) → (d.0 i).file ≡ false)
    → d.1.seq ≡ some n
    → 0 < n
    → n + length ops < 2 ^ 64
    → (i j : ℕ) → i ≢ j
    → ((runs ops d).0 i).file ≡ true
    → ((runs ops d).0 j).file ≡ true
    → ((runs ops d).0 i).filepath ≢ ((runs ops d).0 j).filepath
runs_apart path ops n d room shared off e h k i j differ open_i open_j same =
    let start : Separate n d = record {
      is_named = λ i o. absurd (ground (arith, off i, o));
      in_range = λ i o. absurd (ground (arith, off i, o));
      differ = λ i j c o p. absurd (ground (arith, off i, o));
    } in
    let (m, (small, s)) = runs-Separate ops n d start e h k in
    let t = (runs ops d).0 i in
    let u = (runs ops d).0 j in
    let kept = runs-IsShared path ops d shared in
    let r = s.in_range i open_i in
    let q = s.in_range j open_j in
    path_of_distinct path t.id u.id room (omega (arith, r, small)) (omega (arith, q, small))
      (s.differ i j differ open_i open_j)
      (ap (λ p. path_of p t.id) (sym (kept i))
        ∙ sym (s.is_named i open_i)
        ∙ same
        ∙ s.is_named j open_j
        ∙ ap (λ p. path_of p u.id) (kept j))
