-- ===== src/Tracer/Crowd/Unique.antt =====
-- Why the numbers of a calm run are unique.
use libc_jss.Base.{
  ◌==◌, ==_iff, ==_refl, Bool-cases, length, ℕ, ◌+◌, ◌^◌, ◌<◌, ◌≡◌, refl, sym, ap, ap₂, subst, ◌∙◌,
  ◌⊎◌, inl, inr, true, false, none, some, [], ◌∷◌, arith,
}
use libc_jss.Tracer.Numbering.{reserve_next}
use libc_jss.Tracer.Race.{Stage, outside, locked, reserved, unlocked, numbered, holds_lock, is_late}
use libc_jss.Tracer.Crowd.{
  at_stage, is_ready, numbers_from, pending, Crowd, Calm, begin, locks, reads, unlocks, closes,
}

-- `m` is the number that was taken last.
record Orderly (m : ℕ) (c : Crowd) : Type 0 where
  alone : (a b : ℕ) → holds_lock (c.stage a) ≡ true → holds_lock (c.stage b) ≡ true → a ≡ b
  last : (a id : ℕ) → pending (c.stage a) ≡ some id → (id ≡ m) × (c.seq + 1 ≡ m)
  one_pending : (a b i j : ℕ) → pending (c.stage a) ≡ some i → pending (c.stage b) ≡ some j → a ≡ b
  written : ((a : ℕ) → pending (c.stage a) ≡ none) → c.seq ≡ m

at_stage-cases :
    (a b : ℕ) (st : Stage) (stage : ℕ → Stage)
    → ((b ≡ a) × (at_stage a st stage b ≡ st))
      ⊎ (((b == a) ≡ false) × (at_stage a st stage b ≡ stage b))
unfolding at_stage
at_stage-cases a b st stage = elim (Bool-cases (b == a)) [
  | inl e ↦ inl ((==_iff b a).0 e, rw e refl)
  | inr e ↦ inr (e, rw e refl)
]

-- What does not change for the process that moves does not change for any.
at_stage_same :
    {A : Type 0} (f : Stage → A) (a b : ℕ) (st : Stage) (stage : ℕ → Stage)
    → f st ≡ f (stage a)
    → f (at_stage a st stage b) ≡ f (stage b)
at_stage_same f a b st stage e = elim (at_stage-cases a b st stage) [
  | inl (k, l) ↦ ap f l ∙ e ∙ ap (λ x. f (stage x)) (sym k)
  | inr (k, l) ↦ ap f l
]

at_stage_here : (a : ℕ) (st : Stage) (stage : ℕ → Stage) → at_stage a st stage a ≡ st
unfolding at_stage
at_stage_here a st stage = rw (==_refl a) refl

ready_not_pending : (s : Stage) → is_ready s ≡ true → pending s ≡ none
ready_not_pending outside e = refl
ready_not_pending locked e = refl
ready_not_pending (reserved id) e = absurd (ground (arith, e))
ready_not_pending (unlocked id) e = absurd (ground (arith, e))
ready_not_pending (numbered id) e = refl

free_not_pending : (s : Stage) → is_late s ≡ false → holds_lock s ≡ false → pending s ≡ none
free_not_pending outside e k = refl
free_not_pending locked e k = refl
free_not_pending (reserved id) e k = absurd (ground (arith, k))
free_not_pending (unlocked id) e k = absurd (ground (arith, e))
free_not_pending (numbered id) e k = refl

module _ (m a : ℕ) (c : Crowd) (h : Orderly m c) where
  locks-Orderly :
      is_ready (c.stage a) ≡ true
      → ((b : ℕ) → holds_lock (c.stage b) ≡ false)
      → Orderly m (record c { stage = at_stage a locked c.stage })
  locks-Orderly ready free =
      let same = λ (b : ℕ).
        at_stage_same pending a b locked c.stage (sym (ready_not_pending (c.stage a) ready)) in
      let holder : (b : ℕ) → holds_lock (at_stage a locked c.stage b) ≡ true → b ≡ a = λ b k.
        elim (at_stage-cases a b locked c.stage) [
          | inl (e, l) ↦ e
          | inr (e, l) ↦ absurd (ground (arith, free b, ap holds_lock l, k))
        ] in
      record {
        alone = λ x y k l. holder x k ∙ sym (holder y l);
        last = λ x id k. h.last x id (sym (same x) ∙ k);
        one_pending = λ x y i j k l. h.one_pending x y i j (sym (same x) ∙ k) (sym (same y) ∙ l);
        written = λ off. h.written (λ b. sym (same b) ∙ off b);
      }

  unlocks-Orderly :
      (id : ℕ)
      → c.stage a ≡ reserved id
      → Orderly m (record c { stage = at_stage a (unlocked id) c.stage })
  unlocks-Orderly id e =
      let same = λ (b : ℕ). at_stage_same pending a b (unlocked id) c.stage (sym (ap pending e)) in
      let held : (b : ℕ)
          → holds_lock (at_stage a (unlocked id) c.stage b) ≡ true
          → holds_lock (c.stage b) ≡ true =
        λ b k. elim (at_stage-cases a b (unlocked id) c.stage) [
          | inl (i, l) ↦ absurd (ground (arith, ap holds_lock l, k))
          | inr (i, l) ↦ sym (ap holds_lock l) ∙ k
        ] in
      record {
        alone = λ x y k l. h.alone x y (held x k) (held y l);
        last = λ x i k. h.last x i (sym (same x) ∙ k);
        one_pending = λ x y i j k l. h.one_pending x y i j (sym (same x) ∙ k) (sym (same y) ∙ l);
        written = λ off. h.written (λ b. sym (same b) ∙ off b);
      }

  nobody_pending :
      c.stage a ≡ locked
      → ((b : ℕ) → is_late (c.stage b) ≡ false)
      → (b : ℕ) → pending (c.stage b) ≡ none
  nobody_pending e calm b = elim (Bool-cases (holds_lock (c.stage b))) [
    | inl k ↦
        let here : b ≡ a = h.alone b a k (ap holds_lock e) in
        ap (λ x. pending (c.stage x)) here ∙ ap pending e
    | inr k ↦ free_not_pending (c.stage b) (calm b) k
  ]

  reads-Orderly :
      (id : ℕ)
      → c.stage a ≡ locked
      → ((b : ℕ) → is_late (c.stage b) ≡ false)
      → id ≡ c.seq + 1
      → Orderly
          (m + 1)
          (record c { stage = at_stage a (reserved id) c.stage; taken = id ∷ c.taken })
  reads-Orderly id e calm k =
      let off = nobody_pending e calm in
      let seq : c.seq ≡ m = h.written off in
      let same =
        λ (b : ℕ). at_stage_same holds_lock a b (reserved id) c.stage (sym (ap holds_lock e)) in
      let mine : (b i : ℕ)
          → pending (at_stage a (reserved id) c.stage b) ≡ some i
          → (b ≡ a) × (some id ≡ some i) =
        λ b i l. elim (at_stage-cases a b (reserved id) c.stage) [
          | inl (here, s) ↦ (here, sym (ap pending s) ∙ l)
          | inr (else_where, s) ↦ absurd (ground (arith, ap pending s, off b, l))
        ] in
      record {
        alone = λ x y i j. h.alone x y (sym (same x) ∙ i) (sym (same y) ∙ j);
        last = λ x i l.
            let taken = (mine x i l).1 in (ground (arith, taken, k, seq), omega (arith, seq));
        one_pending = λ x y i j p q. (mine x i p).0 ∙ sym (mine y j q).0;
        written = λ free.
            absurd (ground (arith, free a, ap pending (at_stage_here a (reserved id) c.stage)));
      }

  closes-Orderly :
      (id : ℕ)
      → c.stage a ≡ unlocked id
      → Orderly m (record c { seq = id; stage = at_stage a (numbered id) c.stage })
  closes-Orderly id e =
      let same =
        λ (b : ℕ). at_stage_same holds_lock a b (numbered id) c.stage (sym (ap holds_lock e)) in
      let off : (b i : ℕ) → ¬ (pending (at_stage a (numbered id) c.stage b) ≡ some i) = λ b i l.
        elim (at_stage-cases a b (numbered id) c.stage) [
          | inl (here, s) ↦ absurd (ground (arith, ap pending s, l))
          | inr (else_where, s) ↦
              let here = h.one_pending b a i id (sym (ap pending s) ∙ l) (ap pending e) in
              absurd (ground (arith, else_where, (==_iff b a).1 here))
        ] in
      record {
        alone = λ x y i j. h.alone x y (sym (same x) ∙ i) (sym (same y) ∙ j);
        last = λ x i k. absurd (off x i k);
        one_pending = λ x y i j k l. absurd (off x i k);
        written = λ free. (h.last a id (ap pending e)).0;
      }

module _ (start_id n : ℕ) (positive : 0 < n) where
  begin-Orderly : Orderly (n + 0) (record { seq = n; stage = λ a. outside; taken = [] })
  begin-Orderly = record {
    alone = λ a b h k. absurd (ground (arith, h));
    last = λ a id h. absurd (ground (arith, h));
    one_pending = λ a b i j h k. absurd (ground (arith, h));
    written = λ h. omega arith;
  }

  Calm-Orderly :
      (c : Crowd)
      → n + length c.taken < 2 ^ 64
      → Calm start_id n c
      → Orderly (n + length c.taken) c × (c.taken ≡ numbers_from n (length c.taken))
  Calm-Orderly _ small begin = (begin-Orderly, refl)
  Calm-Orderly _ small (locks a c r ready free) =
      let (h, k) = Calm-Orderly c small r in
      (locks-Orderly (n + length c.taken) a c h ready free, k)
  Calm-Orderly _ small (unlocks a id c r e) =
      let (h, k) = Calm-Orderly c small r in (unlocks-Orderly (n + length c.taken) a c h id e, k)
  Calm-Orderly _ small (closes a id c r e) =
      let (h, k) = Calm-Orderly c small r in (closes-Orderly (n + length c.taken) a c h id e, k)
  Calm-Orderly _ small (reads a id c r e calm taken) =
      let (h, k) = Calm-Orderly c (omega (arith, small)) r in
      let seq = h.written (nobody_pending (n + length c.taken) a c h e calm) in
      let next : id ≡ c.seq + 1 =
        taken
        ∙ reserve_next start_id c.seq (omega (arith, seq, positive)) (omega (arith, seq, small)) in
      (
        subst
            (λ m.
              Orderly m
                (record c { stage = at_stage a (reserved id) c.stage; taken = id ∷ c.taken }))
            (omega arith) (reads-Orderly (n + length c.taken) a c h id e calm next),
        ap₂ (λ x l. x ∷ l) (omega (arith, next, seq)) k,
      )

-- With a number in `.seq` that is not 0, and 64 bits enough for all numbers: in every run of any
-- number of processes on one directory, each of which calls `new_id` any number of times, and in any
-- interleaving in which no process reads the number while another has given the lock back and not
-- yet closed the file: the numbers that are taken are those behind the first one, without a gap and
-- none twice; and whenever no process has a number in its buffer, `.seq` holds the last one.
pub numbers_unique :
    (start_id n : ℕ) (c : Crowd)
    → 0 < n
    → n + length c.taken < 2 ^ 64
    → Calm start_id n c
    → (c.taken ≡ numbers_from n (length c.taken))
      × (((a : ℕ) → pending (c.stage a) ≡ none) → c.seq ≡ n + length c.taken)
numbers_unique start_id n c positive small r =
    let (h, k) = Calm-Orderly start_id n positive c small r in (k, h.written)
