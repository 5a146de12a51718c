-- ===== src/Tracer/Numbering.antt =====
-- The numbers that a tracer takes, and the files that they name.
use libc_jss.Base.{
  ◌==◌, if◌then◌else◌, if_true, if_false, ==_refl, Bool-cases, length, ℕ, ◌+◌, ◌^◌, ◌<◌, ◌≡◌, refl,
  sym, ap, subst, ◌∙◌, ◌⊎◌, inl, inr, Bool, true, false, not, ◌&&◌, some, List, [], ◌∷◌, arith,
}
use libc_jss.Tracer.{
  Tracer, Files, Answers, reserve, new_id, tracer_close, path_of, tracer_open, tracer_printf,
  tracer_set_start_id, tracer_get_id, Op, op_open, op_close, op_printf, op_set_start_id,
  op_get_id_as_string, perform,
}

-- Whether the call takes a new number.
abbrev pub takes_number : Op → Tracer → Bool
takes_number (op_open a) t = not (length t.path == 0) && a.opens_seq
takes_number op_close t = false
takes_number (op_printf formatted) t = false
takes_number (op_set_start_id start_id) t = false
takes_number op_get_id_as_string t = false

-- The tracers that share a directory, with its files.
abbrev pub Directory : Type 0
Directory = (ℕ → Tracer) × Files

-- A call on the tracer `i`.
unfoldable pub perform_by : ℕ → Op → Directory → Directory
perform_by i op (ts, fs) = let r = perform op (ts i) fs in (λ j. if j == i then r.0 else ts j, r.1)

-- The numbers that tracers have behind the calls that take one.
unfoldable pub numbers : List (ℕ × Op) → Directory → List ℕ
numbers [] d = []
numbers ((i, op) ∷ ops) d =
    let next = perform_by i op d in
    let rest = numbers ops next in if takes_number op (d.0 i) then (next.0 i).id ∷ rest else rest

-- Each number is the one before it plus one.
pub IsConsecutive : ℕ → List ℕ → Type 0
IsConsecutive n [] = Unit
IsConsecutive n (x ∷ xs) = (x ≡ n + 1) × IsConsecutive x xs

-- With the number `n` in `.seq`, a call keeps it, or takes the next.
abbrev pub Next : ℕ → Op → Tracer → Tracer × Files → Type 0
Next n op t r =
    ((takes_number op t ≡ false) × (r.1.seq ≡ some n))
    ⊎ ((takes_number op t ≡ true) × ((r.0.id ≡ n + 1) × (r.1.seq ≡ some (n + 1))))

pub reserve_next : (start_id n : ℕ) → 0 < n → n + 1 < 2 ^ 64 → reserve start_id (some n) ≡ n + 1
reserve_next start_id n h k = ground (arith, h, k)

open-Next :
    (a : Answers) (n : ℕ) (t : Tracer) (fs : Files)
    → fs.seq ≡ some n
    → 0 < n
    → n + 1 < 2 ^ 64
    → Next n (op_open a) t (tracer_open a t fs)
unfolding tracer_open new_id tracer_close
open-Next a n t fs e h k = elim (Bool-cases (length t.path == 0)) [
  | inl p ↦ rw p (inl (refl, e))
  | inr p ↦ elim (Bool-cases a.opens_seq) [
    | inl q ↦
        rw (p, q, e)
          (inr (
            refl,
            (
              reserve_next (tracer_close t).0.start_id n h k,
              ap some (reserve_next (tracer_close t).0.start_id n h k),
            ),
          ))
    | inr q ↦ rw (p, q, e) (inl (refl, refl))
  ]
]

pub perform-Next :
    (op : Op) (n : ℕ) (t : Tracer) (fs : Files)
    → fs.seq ≡ some n
    → 0 < n
    → n + 1 < 2 ^ 64
    → Next n op t (perform op t fs)
unfolding perform tracer_printf
perform-Next (op_open a) n t fs e h k = open-Next a n t fs e h k
perform-Next op_close n t fs e h k = inl (refl, e)
perform-Next (op_printf formatted) n t fs e h k = elim (Bool-cases t.file) [
  | inl f ↦ rw f (inl (refl, e))
  | inr f ↦ rw f (inl (refl, e))
]
perform-Next (op_set_start_id start_id) n t fs e h k = inl (refl, e)
perform-Next op_get_id_as_string n t fs e h k = inl (refl, e)

pub perform_by_here :
    (i : ℕ) (op : Op) (d : Directory) → (perform_by i op d).0 i ≡ (perform op (d.0 i) d.1).0
unfolding perform_by
perform_by_here i op d = rw (==_refl i) refl

module _ (i : ℕ) (op : Op) (ops : List (ℕ × Op)) (d : Directory) where
  numbers_kept :
      takes_number op (d.0 i) ≡ false → numbers ((i, op) ∷ ops) d ≡ numbers ops (perform_by i op d)
  unfolding numbers
  numbers_kept e = if_false (takes_number op (d.0 i)) _ _ e

  numbers_taken :
      takes_number op (d.0 i) ≡ true
      → numbers ((i, op) ∷ ops) d ≡ (perform op (d.0 i) d.1).0.id ∷ numbers ops (perform_by i op d)
  unfolding numbers
  numbers_taken e =
      if_true (takes_number op (d.0 i)) _ _ e
      ∙ ap (λ (t : Tracer). t.id ∷ numbers ops (perform_by i op d)) (perform_by_here i op d)

-- While `.seq` holds a number and 64 bits are enough, every `tracer_open` that has a directory and
-- can open `.seq` takes the number that follows the last one that any tracer of the directory took,
-- whatever calls stand between, and whether opening the trace file itself succeeds or not.
pub numbers-IsConsecutive :
    (ops : List (ℕ × Op)) (n : ℕ) (d : Directory)
    → d.1.seq ≡ some n
    → 0 < n
    → n + length ops < 2 ^ 64
    → IsConsecutive n (numbers ops d)
unfolding numbers IsConsecutive perform_by
numbers-IsConsecutive [] n d e h k = tt
numbers-IsConsecutive ((i, op) ∷ ops) n d e h k =
    let next = perform_by i op d in
    elim (perform-Next op n (d.0 i) d.1 e h (omega (arith, k))) [
      | inl (off, seq) ↦
          subst (IsConsecutive n) (sym (numbers_kept i op ops d off))
            (numbers-IsConsecutive ops n next seq h (omega (arith, k)))
      | inr (on, (id, seq)) ↦ subst (IsConsecutive n) (sym (numbers_taken i op ops d on)) (
          subst (λ m. (m ≡ n + 1) × IsConsecutive m (numbers ops next)) (sym id)
            (
              refl,
              numbers-IsConsecutive ops (n + 1) next seq (omega (arith, h)) (omega (arith, k)),
            ))
    ]

-- An open trace file is the one that `tracer_get_id` names.
abbrev pub IsNamed : Tracer → Type 0
IsNamed t = t.file ≡ true → t.filepath ≡ path_of t.path (tracer_get_id t)

pub tracer_close_closed : (t : Tracer) → (tracer_close t).0.file ≡ false
unfolding tracer_close
tracer_close_closed t = elim (Bool-cases t.file) [ inl e ↦ rw e refl | inr e ↦ rw e refl ]

pub new_id_keeps :
    (a : Answers) (t : Tracer) (fs : Files)
    → ((new_id a t fs).0.file ≡ t.file) × ((new_id a t fs).0.path ≡ t.path)
unfolding new_id
new_id_keeps a t fs = elim (Bool-cases a.opens_seq) [
  | inl e ↦ rw e (refl, refl)
  | inr e ↦ rw e (refl, refl)
]

tracer_open-IsNamed :
    (a : Answers) (t : Tracer) (fs : Files) → IsNamed t → IsNamed (tracer_open a t fs).0
unfolding tracer_open
tracer_open-IsNamed a t fs h =
    let closed = (tracer_close t).0 in
    let off = (new_id_keeps a closed fs).0 ∙ tracer_close_closed t in
    elim (Bool-cases (length t.path == 0)) [
      | inl p ↦ rw p h
      | inr p ↦ elim (Bool-cases (new_id a closed fs).2) [
        | inl q ↦ rw (p, q) (λ e. absurd (ground (arith, off, e)))
        | inr q ↦ rw (p, q) (λ e. refl)
      ]
    ]

-- After every call, an open trace file is the one that the number from `tracer_get_id` names in
-- the tracer's directory.
pub perform-IsNamed : (op : Op) (t : Tracer) (fs : Files) → IsNamed t → IsNamed (perform op t fs).0
unfolding perform tracer_set_start_id
perform-IsNamed (op_open a) t fs h = tracer_open-IsNamed a t fs h
perform-IsNamed op_close t fs h = λ e. absurd (ground (arith, tracer_close_closed t, e))
perform-IsNamed (op_printf formatted) t fs h = h
perform-IsNamed (op_set_start_id start_id) t fs h = h
perform-IsNamed op_get_id_as_string t fs h = h
