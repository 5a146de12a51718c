-- ===== src/Tracer/Crowd.antt =====
-- tracer/tracer.c, `new_id`, in any number of processes that share a directory, each of which calls
-- it any number of times.
pub mod Unique
mod Examples
use libc_jss.Base.{
  ltb, leb, ◌==◌, if◌then◌else◌, if_true, if_false, ltb→lt, lt→ltb, le_of_not_ltb, leb→le, ==_iff,
  ==_refl, Bool-cases, Option-cases, length, get_or, set, take, drop, replicate, reverse_onto,
  take_while, drop_while, keep_if, length-append, length-set, length-take, length-drop,
  length-replicate, take-append-drop, take_all, take_while-append-drop_while, length-drop_while-le,
  length-keep_if-le, get_or-append, set-append, nil_of_length, length_snoc, get_or-drop, drop_next,
  get_or_behind, take-append_left, take_middle, Bytes, length-append_bytes, length-take_bytes,
  length-drop_bytes, length-replicate_bytes, codes, cstr, strlen, IsText, contains, starts_with,
  str_eq, cstr_text, strlen_text, cstr-IsText, cstr_idem, append-IsText, take-IsText, strncpy,
  cstr_front, get_or-strncpy, lengths, decimal, decimal_injective, length-decimal-le, ℤ, pos,
  negsuc, ℕ, zero, suc, ◌+◌, ◌-◌, ◌*◌, ◌/◌, ◌%◌, ◌^◌, ◌≤◌, ◌<◌, min, ◌≡◌, refl, sym, ap, ap₂, subst,
  subst₂, ◌∙◌, ◌≡⟨◌⟩◌, ◌∎, ◌≢◌, ◌↔◌, ◌⊎◌, inl, inr, Bool, true, false, not, ◌&&◌, ◌||◌, Option,
  none, some, List, [], ◌∷◌, ◌++◌, map, reverse, append-nil, append_assoc, arith,
}
use libc_jss.Tracer.{reserve}
use libc_jss.Tracer.Numbering.{reserve_next}
use libc_jss.Tracer.Race.{Stage, outside, locked, reserved, unlocked, numbered, holds_lock, is_late}

-- The number in the file, how far each process is, and the numbers that have been taken, the latest
-- first.
pub record Crowd : Type 0 where
  pub seq : ℕ
  pub stage : ℕ → Stage
  pub taken : List ℕ

unfoldable pub at_stage : ℕ → Stage → (ℕ → Stage) → ℕ → Stage
at_stage a st stage = λ b. if b == a then st else stage b

-- In front of a call of `new_id`, or behind one.
abbrev pub is_ready : Stage → Bool
is_ready outside = true
is_ready locked = false
is_ready (reserved id) = false
is_ready (unlocked id) = false
is_ready (numbered id) = true

-- The runs in which no process reads the number while another has given the lock back and not yet
-- closed the file.
pub data Calm (start_id n : ℕ) : Crowd → Type 0 where
  begin : Calm start_id n (record { seq = n; stage = λ a. outside; taken = [] })
  locks :
      (a : ℕ) (c : Crowd)
      → Calm start_id n c
      → is_ready (c.stage a) ≡ true
      → ((b : ℕ) → holds_lock (c.stage b) ≡ false)
      → Calm start_id n (record c { stage = at_stage a locked c.stage })
  reads :
      (a id : ℕ) (c : Crowd)
      → Calm start_id n c
      → c.stage a ≡ locked
      → ((b : ℕ) → is_late (c.stage b) ≡ false)
      → id ≡ reserve start_id (some c.seq)
      → Calm start_id n
          (record c { stage = at_stage a (reserved id) c.stage; taken = id ∷ c.taken })
  unlocks :
      (a id : ℕ) (c : Crowd)
      → Calm start_id n c
      → c.stage a ≡ reserved id
      → Calm start_id n (record c { stage = at_stage a (unlocked id) c.stage })
  closes :
      (a id : ℕ) (c : Crowd)
      → Calm start_id n c
      → c.stage a ≡ unlocked id
      → Calm start_id n (record c { seq = id; stage = at_stage a (numbered id) c.stage })

-- The numbers behind `n`, the latest first.
abbrev pub numbers_from : ℕ → ℕ → List ℕ
numbers_from n zero = []
numbers_from n (suc k) = (n + suc k) ∷ numbers_from n k

-- The number in the buffer of a process.
abbrev pub pending : Stage → Option ℕ
pending outside = none
pending locked = none
pending (reserved id) = some id
pending (unlocked id) = some id
pending (numbered id) = none
