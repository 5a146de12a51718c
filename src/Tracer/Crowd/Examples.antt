-- ===== src/Tracer/Crowd/Examples.antt =====
-- Two processes of a crowd: the second takes the lock before the first has closed the file, and
-- reads behind that.
use libc_jss.Base.{ℕ, ◌+◌, ◌≡◌, refl, none, [], ◌∷◌, arith}
use libc_jss.Tracer.Race.{outside, locked, reserved, unlocked, numbered}
use libc_jss.Tracer.Crowd.{
  Crowd, at_stage, pending, Calm, begin, locks, reads, unlocks, closes, numbers_from,
}
use libc_jss.Tracer.Crowd.Unique.{numbers_unique}

abbrev starting : Crowd
starting = record { seq = 41; stage = λ a. outside; taken = [] }

abbrev first_in : Crowd
first_in = record starting { stage = at_stage 3 locked starting.stage }

abbrev first_read : Crowd
first_read = record first_in { stage = at_stage 3 (reserved 42) first_in.stage; taken = 42 ∷ [] }

abbrev first_out : Crowd
first_out = record first_read { stage = at_stage 3 (unlocked 42) first_read.stage }

abbrev second_in : Crowd
second_in = record first_out { stage = at_stage 7 locked first_out.stage }

abbrev first_closed : Crowd
first_closed = record second_in { seq = 42; stage = at_stage 3 (numbered 42) second_in.stage }

abbrev second_read : Crowd
second_read = record first_closed {
  stage = at_stage 7 (reserved 43) first_closed.stage;
  taken = 43 ∷ 42 ∷ [];
}

first_out-Calm : Calm 10000 41 first_out
unfolding at_stage
first_out-Calm =
    unlocks 3 42 first_read
      (reads 3 42 first_in (locks 3 starting begin refl (λ b. refl)) refl (λ b. ground arith) refl)
      refl

second_read-Calm : Calm 10000 41 second_read
unfolding at_stage
second_read-Calm =
    reads 7 43 first_closed
      (closes 3 42 second_in (locks 7 first_out first_out-Calm refl (λ b. ground arith)) refl) refl
      (λ b. ground arith) refl

numbers_unique_example :
    (second_read.taken ≡ numbers_from 41 2)
    × (((a : ℕ) → pending (second_read.stage a) ≡ none) → second_read.seq ≡ 41 + 2)
numbers_unique_example =
    numbers_unique 10000 41 second_read (omega arith) (omega arith) second_read-Calm
