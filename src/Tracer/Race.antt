-- ===== src/Tracer/Race.antt =====
-- tracer/tracer.c, `new_id`, in two processes that share a directory, with `.seq` there. The number
-- stands in the stream's buffer from `fprintf` on, and reaches the file with `fclose`, behind the call
-- of `flock` that gives the lock back.
use libc_jss.Base.{
  ℕ, ◌+◌, ◌^◌, ◌<◌, ◌≡◌, refl, sym, subst, subst₂, ◌⊎◌, inl, inr, Bool, true, false, ◌||◌, some,
  arith,
}
use libc_jss.Tracer.{reserve}
use libc_jss.Tracer.Numbering.{reserve_next}

-- How far a process is: in front of the lock; with the lock; with its number in the buffer; without
-- the lock; with the file closed.
pub data Stage : Type 0 where
  outside : Stage
  locked : Stage
  reserved : ℕ → Stage
  unlocked : ℕ → Stage
  numbered : ℕ → Stage

abbrev pub holds_lock : Stage → Bool
holds_lock outside = false
holds_lock locked = true
holds_lock (reserved id) = true
holds_lock (unlocked id) = false
holds_lock (numbered id) = false

-- The lock is given back, and the number is still in the buffer.
abbrev pub is_late : Stage → Bool
is_late outside = false
is_late locked = false
is_late (reserved id) = false
is_late (unlocked id) = true
is_late (numbered id) = false

-- One call of `new_id` goes on, beside the other process: the number in the file before and
-- behind, and whether it is read while the other is late.
pub data Move (start_id : ℕ) (other : Stage) (seq : ℕ) : Stage → Stage → ℕ → Bool → Type 0 where
  lock : holds_lock other ≡ false → Move start_id other seq outside locked seq false
  read : Move start_id other seq locked (reserved (reserve start_id (some seq))) seq (is_late other)
  unlock : (id : ℕ) → Move start_id other seq (reserved id) (unlocked id) seq false
  close : (id : ℕ) → Move start_id other seq (unlocked id) (numbered id) id false

-- `overtaken` holds once a number was read while the other process was late.
pub record Shared : Type 0 where
  pub seq : ℕ
  pub one : Stage
  pub two : Stage
  pub overtaken : Bool

pub data Step (start_id : ℕ) (s : Shared) : Shared → Type 0 where
  first :
      {stage : Stage} {seq : ℕ} {overtakes : Bool}
      → Move start_id s.two s.seq s.one stage seq overtakes
      → Step start_id s
          (record { seq = seq; one = stage; two = s.two; overtaken = s.overtaken || overtakes })
  second :
      {stage : Stage} {seq : ℕ} {overtakes : Bool}
      → Move start_id s.one s.seq s.two stage seq overtakes
      → Step start_id s
          (record { seq = seq; one = s.one; two = stage; overtaken = s.overtaken || overtakes })

abbrev pub both_outside : ℕ → Shared
both_outside n = record { seq = n; one = outside; two = outside; overtaken = false }

pub data Reaches (start_id n : ℕ) : Shared → Type 0 where
  here : Reaches start_id n (both_outside n)
  next : (s t : Shared) → Reaches start_id n s → Step start_id s t → Reaches start_id n t

-- Where the two can be, the one that reads first in front.
data Joint (n : ℕ) : Stage → Stage → ℕ → Bool → Type 0 where
  none_in : Joint n outside outside n false
  one_in : Joint n locked outside n false
  one_read : Joint n (reserved (n + 1)) outside n false
  one_out : Joint n (unlocked (n + 1)) outside n false
  two_in_early : Joint n (unlocked (n + 1)) locked n false
  one_closed : Joint n (numbered (n + 1)) outside (n + 1) false
  two_in : Joint n (numbered (n + 1)) locked (n + 1) false
  two_read : Joint n (numbered (n + 1)) (reserved (n + 1 + 1)) (n + 1) false
  two_out : Joint n (numbered (n + 1)) (unlocked (n + 1 + 1)) (n + 1) false
  both_closed : Joint n (numbered (n + 1)) (numbered (n + 1 + 1)) (n + 1 + 1) false
  read_early : Joint n (unlocked (n + 1)) (reserved (n + 1)) n true
  both_out : Joint n (unlocked (n + 1)) (unlocked (n + 1)) n true
  closed_over : Joint n (numbered (n + 1)) (reserved (n + 1)) (n + 1) true
  closed_out : Joint n (numbered (n + 1)) (unlocked (n + 1)) (n + 1) true
  closed_same : Joint n (numbered (n + 1)) (numbered (n + 1)) (n + 1) true

abbrev EitherFirst : ℕ → Stage → Stage → ℕ → Bool → Type 0
EitherFirst n a b seq o = Joint n a b seq o ⊎ Joint n b a seq o

module _ (start_id n : ℕ) (h : 0 < n) (k : n + 1 + 1 < 2 ^ 64) where
  next_id : reserve start_id (some n) ≡ n + 1
  next_id = reserve_next start_id n h (omega (arith, k))

  id_after : reserve start_id (some (n + 1)) ≡ n + 1 + 1
  id_after = reserve_next start_id (n + 1) (omega arith) k

  first_moves :
      (a b a' : Stage) (seq seq' : ℕ) (o x : Bool)
      → Joint n a b seq o
      → Move start_id b seq a a' seq' x
      → EitherFirst n a' b seq' (o || x)
  first_moves _ _ _ _ _ _ _ none_in (lock e) = inl one_in
  first_moves _ _ _ _ _ _ _ one_in read =
      inl (subst (λ id. Joint n (reserved id) outside n false) (sym next_id) one_read)
  first_moves _ _ _ _ _ _ _ one_read (unlock id) = inl one_out
  first_moves _ _ _ _ _ _ _ one_out (close id) = inl one_closed
  first_moves _ _ _ _ _ _ _ two_in_early (close id) = inl two_in
  first_moves _ _ _ _ _ _ _ read_early (close id) = inl closed_over
  first_moves _ _ _ _ _ _ _ both_out (close id) = inl closed_out
  first_moves _ _ _ _ _ _ _ one_closed m = elim m [ ]
  first_moves _ _ _ _ _ _ _ two_in m = elim m [ ]
  first_moves _ _ _ _ _ _ _ two_read m = elim m [ ]
  first_moves _ _ _ _ _ _ _ two_out m = elim m [ ]
  first_moves _ _ _ _ _ _ _ both_closed m = elim m [ ]
  first_moves _ _ _ _ _ _ _ closed_over m = elim m [ ]
  first_moves _ _ _ _ _ _ _ closed_out m = elim m [ ]
  first_moves _ _ _ _ _ _ _ closed_same m = elim m [ ]

  second_moves :
      (a b b' : Stage) (seq seq' : ℕ) (o x : Bool)
      → Joint n a b seq o
      → Move start_id a seq b b' seq' x
      → EitherFirst n a b' seq' (o || x)
  second_moves _ _ _ _ _ _ _ none_in (lock e) = inr one_in
  second_moves _ _ _ _ _ _ _ one_out (lock e) = inl two_in_early
  second_moves _ _ _ _ _ _ _ two_in_early read =
      inl (subst (λ id. Joint n (unlocked (n + 1)) (reserved id) n true) (sym next_id) read_early)
  second_moves _ _ _ _ _ _ _ one_closed (lock e) = inl two_in
  second_moves _ _ _ _ _ _ _ two_in read =
      inl (
        subst (λ id. Joint n (numbered (n + 1)) (reserved id) (n + 1) false) (sym id_after)
          two_read)
  second_moves _ _ _ _ _ _ _ two_read (unlock id) = inl two_out
  second_moves _ _ _ _ _ _ _ two_out (close id) = inl both_closed
  second_moves _ _ _ _ _ _ _ read_early (unlock id) = inl both_out
  second_moves _ _ _ _ _ _ _ both_out (close id) = inr closed_out
  second_moves _ _ _ _ _ _ _ closed_over (unlock id) = inl closed_out
  second_moves _ _ _ _ _ _ _ closed_out (close id) = inl closed_same
  second_moves _ _ _ _ _ _ _ one_in (lock e) = absurd (ground (arith, e))
  second_moves _ _ _ _ _ _ _ one_read (lock e) = absurd (ground (arith, e))
  second_moves _ _ _ _ _ _ _ both_closed m = elim m [ ]
  second_moves _ _ _ _ _ _ _ closed_same m = elim m [ ]

  swapped : (a b : Stage) (seq : ℕ) (o : Bool) → EitherFirst n a b seq o → EitherFirst n b a seq o
  swapped a b seq o (inl j) = inr j
  swapped a b seq o (inr j) = inl j

  Reaches-EitherFirst :
      (s : Shared) → Reaches start_id n s → EitherFirst n s.one s.two s.seq s.overtaken
  Reaches-EitherFirst _ here = inl none_in
  Reaches-EitherFirst _ (next s t r (first m)) = elim (Reaches-EitherFirst s r) [
    | inl j ↦ first_moves s.one s.two _ s.seq _ s.overtaken _ j m
    | inr j ↦ swapped _ _ _ _ (second_moves s.two s.one _ s.seq _ s.overtaken _ j m)
  ]
  Reaches-EitherFirst _ (next s t r (second m)) = elim (Reaches-EitherFirst s r) [
    | inl j ↦ second_moves s.one s.two _ s.seq _ s.overtaken _ j m
    | inr j ↦ swapped _ _ _ _ (first_moves s.two s.one _ s.seq _ s.overtaken _ j m)
  ]

-- Both have their number.
abbrev pub Outcome : ℕ → ℕ → ℕ → ℕ → Bool → Type 0
Outcome n x y seq overtaken =
    ((overtaken ≡ false)
      × (seq ≡ n + 1 + 1)
      × ((x ≡ n + 1) × (y ≡ n + 1 + 1) ⊎ (x ≡ n + 1 + 1) × (y ≡ n + 1)))
    ⊎ ((overtaken ≡ true) × (seq ≡ n + 1) × (x ≡ n + 1) × (y ≡ n + 1))

joint_outcome :
    (n x y seq : ℕ) (o : Bool) → Joint n (numbered x) (numbered y) seq o → Outcome n x y seq o
joint_outcome n _ _ _ _ both_closed = inl (refl, refl, inl (refl, refl))
joint_outcome n _ _ _ _ closed_same = inr (refl, refl, refl, refl)

outcome_swapped : (n x y seq : ℕ) (o : Bool) → Outcome n x y seq o → Outcome n y x seq o
outcome_swapped n x y seq o (inl (e, k, inl (a, b))) = inl (e, k, inr (b, a))
outcome_swapped n x y seq o (inl (e, k, inr (a, b))) = inl (e, k, inl (b, a))
outcome_swapped n x y seq o (inr (e, k, a, b)) = inr (e, k, b, a)

-- With the number `n` in `.seq`, which is not 0 and leaves room in 64 bits, two processes each make one call of
-- `new_id`, in any interleaving. If neither reads the number while the other has given the lock
-- back and not yet closed the file, they take `n + 1` and `n + 2`, each one of them, and `.seq`
-- holds `n + 2`; otherwise both take `n + 1`, and `.seq` holds `n + 1`.
pub Reaches-Outcome :
    (start_id n x y : ℕ) (s : Shared)
    → 0 < n
    → n + 1 + 1 < 2 ^ 64
    → Reaches start_id n s
    → s.one ≡ numbered x
    → s.two ≡ numbered y
    → Outcome n x y s.seq s.overtaken
Reaches-Outcome start_id n x y s h k r e f = elim (Reaches-EitherFirst start_id n h k s r) [
  | inl j ↦
      joint_outcome n x y s.seq s.overtaken (subst₂ (λ a b. Joint n a b s.seq s.overtaken) e f j)
  | inr j ↦
      outcome_swapped n y x s.seq s.overtaken (
        joint_outcome n y x s.seq s.overtaken (subst₂ (λ a b. Joint n a b s.seq s.overtaken) f e j))
]
