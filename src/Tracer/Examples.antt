-- ===== src/Tracer/Examples.antt =====
-- A run of two tracers of a directory, and two processes that share a directory.
use libc_jss.Base.{codes, ℕ, ◌≤◌, ◌≡◌, refl, ◌≢◌, Bool, true, false, some, List, [], ◌∷◌, arith}
use libc_jss.Tracer.{
  Tracer, Files, Answers, reserve, path_of, tracer_open, tracer_get_id, tracer_new, Op, op_open,
  op_close, op_printf, perform,
}
use libc_jss.Tracer.Race.{
  Stage, outside, locked, reserved, unlocked, numbered, Shared, lock, read, unlock, close, first,
  second, both_outside, Reaches, here, next, Outcome, Reaches-Outcome,
}
use libc_jss.Tracer.Names.{opened, IsDistinct, Absent, opened_once}
use libc_jss.Tracer.Apart.{runs, runs_apart}
use libc_jss.Tracer.Numbering.{numbers, IsConsecutive, numbers-IsConsecutive, Directory, perform_by}

abbrev granted : Answers
granted = record { creates = true; opens_seq = true; opens_file = true }

abbrev full_disk : Answers
full_disk = record { creates = true; opens_seq = true; opens_file = false }

abbrev tracer : Tracer
tracer = tracer_new (codes "/tmp/t") true

abbrev files : Files
files = record { seq = some 41; written = [] }

abbrev directory : Directory
directory = (λ i. tracer, files)

-- The tracers 0 and 1 take turns.
abbrev calls : List (ℕ × Op)
calls =
    (0, op_open granted)
    ∷ (0, op_printf (codes "hello"))
    ∷ (1, op_open full_disk)
    ∷ (1, op_close)
    ∷ (1, op_open granted)
    ∷ []

numbers-calls : numbers calls directory ≡ 42 ∷ 43 ∷ 44 ∷ []
unfolding numbers perform tracer_open perform_by
numbers-calls = refl

opened-calls :
    opened calls directory ≡ path_of (codes "/tmp/t") 42 ∷ path_of (codes "/tmp/t") 44 ∷ []
unfolding opened perform tracer_open perform_by
opened-calls = refl

numbers-IsConsecutive_example : IsConsecutive 41 (numbers calls directory)
numbers-IsConsecutive_example =
    numbers-IsConsecutive calls 41 directory refl (omega arith) (omega arith)

opened_once_example :
    IsDistinct (opened calls directory)
    × ((m : ℕ) → m ≤ 41 → Absent (path_of (codes "/tmp/t") m) (opened calls directory))
opened_once_example =
    opened_once (codes "/tmp/t") calls 41 directory (omega arith) (λ i. refl) refl (omega arith)
      (omega arith)

both_open : (((runs calls directory).0 0).file ≡ true) × (((runs calls directory).0 1).file ≡ true)
unfolding runs perform_by perform tracer_open
both_open = (refl, refl)

runs_apart_example : ((runs calls directory).0 0).filepath ≢ ((runs calls directory).0 1).filepath
runs_apart_example =
    runs_apart (codes "/tmp/t") calls 41 directory (omega arith) (λ i. refl) (λ i. refl) refl
      (omega arith) (omega arith) 0 1 (λ e. omega (arith, e)) both_open.0 both_open.1

-- The number stays while no file is open.
full_disk_id :
    let t = (tracer_open full_disk tracer files).0 in (t.file ≡ false) × (tracer_get_id t ≡ 42)
unfolding tracer_open
full_disk_id = (refl, refl)

-- Between the second `flock` and `fclose` another process reads the old number.
reserved_twice : reserve 10000 (some 41) ≡ reserve 20000 (some 41)
reserved_twice = refl

abbrev shared : ℕ → Stage → Stage → Bool → Shared
shared seq one two overtaken = record { seq = seq; one = one; two = two; overtaken = overtaken }

-- The second process reads before the first closes the file.
Reaches-early : Reaches 10000 41 (shared 41 (unlocked 42) (reserved 42) true)
Reaches-early =
    next (shared 41 (unlocked 42) locked false) _
      (next (shared 41 (unlocked 42) outside false) _
        (next (shared 41 (reserved 42) outside false) _
          (next (shared 41 locked outside false) _
            (next (both_outside 41) _ here (first (lock refl))) (first read))
          (first (unlock 42)))
        (second (lock refl)))
      (second read)

Reaches-both : Reaches 10000 41 (shared 42 (numbered 42) (numbered 42) true)
Reaches-both =
    next (shared 42 (numbered 42) (unlocked 42) true) _
      (next (shared 41 (unlocked 42) (unlocked 42) true) _
        (next (shared 41 (unlocked 42) (reserved 42) true) _ Reaches-early (second (unlock 42)))
        (first (close 42)))
      (second (close 42))

Reaches-Outcome_example : Outcome 41 42 42 42 true
Reaches-Outcome_example =
    Reaches-Outcome 10000 41 42 42 (shared 42 (numbered 42) (numbered 42) true) (omega arith)
      (omega arith) Reaches-both refl refl
