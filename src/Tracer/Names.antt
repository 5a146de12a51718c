-- ===== src/Tracer/Names.antt =====
-- The trace files that the tracers of a directory open.
use libc_jss.Base.{
  ◌==◌, if◌then◌else◌, if_true, if_false, Bool-cases, length, Bytes, ℕ, ◌+◌, ◌^◌, ◌≤◌, ◌<◌, ◌≡◌,
  refl, sym, ap, ap₂, subst, ◌∙◌, ◌≢◌, inl, inr, Bool, true, false, not, ◌&&◌, some, List, [], ◌∷◌,
  arith,
}
use libc_jss.Tracer.{
  Tracer, Files, Answers, path_of, create_seq, reserve, new_id, tracer_open, tracer_close,
  tracer_set_start_id, Op, op_open, op_close, op_printf, op_set_start_id, op_get_id_as_string,
  perform,
}
use libc_jss.Tracer.Paths.{path_of_distinct}
use libc_jss.Tracer.Numbering.{
  takes_number, Directory, perform_by, perform_by_here, perform-Next, new_id_keeps,
}

-- Whether the call opens a trace file.
abbrev opens_file : Op → Tracer → Bool
opens_file (op_open a) t = not (length t.path == 0) && a.opens_seq && a.opens_file
opens_file op_close t = false
opens_file (op_printf formatted) t = false
opens_file (op_set_start_id start_id) t = false
opens_file op_get_id_as_string t = false

-- The trace files that are opened, each of which is created or emptied.
unfoldable pub opened : List (ℕ × Op) → Directory → List Bytes
opened [] d = []
opened ((i, op) ∷ ops) d =
    let next = perform_by i op d in
    let rest = opened ops next in if opens_file op (d.0 i) then (next.0 i).filepath ∷ rest else rest

-- The files are named by numbers above `n`, each above the one before it.
IsFresh : Bytes → ℕ → List Bytes → Type 0
IsFresh path n [] = Unit
IsFresh path n (x ∷ xs) =
    (m : ℕ) × ((n < m) × ((m < 2 ^ 64) × ((x ≡ path_of path m) × IsFresh path m xs)))

IsFresh-weaken :
    (path : Bytes) (n m : ℕ) (xs : List Bytes) → n ≤ m → IsFresh path m xs → IsFresh path n xs
unfolding IsFresh
IsFresh-weaken path n m [] h k = tt
IsFresh-weaken path n m (x ∷ xs) h (l, k) = (l, (omega (arith, h, k.0), k.1))

opens_file-takes_number : (op : Op) (t : Tracer) → opens_file op t ≡ true → takes_number op t ≡ true
opens_file-takes_number (op_open a) t e = ground (arith, e)
opens_file-takes_number op_close t e = absurd (ground (arith, e))
opens_file-takes_number (op_printf formatted) t e = absurd (ground (arith, e))
opens_file-takes_number (op_set_start_id start_id) t e = absurd (ground (arith, e))
opens_file-takes_number op_get_id_as_string t e = absurd (ground (arith, e))

tracer_close-path : (t : Tracer) → (tracer_close t).0.path ≡ t.path
unfolding tracer_close
tracer_close-path t = elim (Bool-cases t.file) [ inl e ↦ rw e refl | inr e ↦ rw e refl ]

tracer_open-path : (a : Answers) (t : Tracer) (fs : Files) → (tracer_open a t fs).0.path ≡ t.path
unfolding tracer_open
tracer_open-path a t fs =
    let closed = (tracer_close t).0 in
    let kept = (new_id_keeps a closed fs).1 ∙ tracer_close-path t in
    elim (Bool-cases (length t.path == 0)) [
      | inl p ↦ rw p refl
      | inr p ↦ elim (Bool-cases (new_id a closed fs).2) [
        | inl q ↦ rw (p, q) kept
        | inr q ↦ rw (p, q) kept
      ]
    ]

-- The file that a call opens is named by the tracer's new number.
opens_file-path_of :
    (op : Op) (t : Tracer) (fs : Files)
    → opens_file op t ≡ true
    → let r = perform op t fs in r.0.filepath ≡ path_of t.path r.0.id
unfolding perform tracer_open new_id tracer_close
opens_file-path_of (op_open a) t fs e =
    let p : (length t.path == 0) ≡ false = ground (arith, e) in
    let q : a.opens_seq ≡ true = ground (arith, e) in
    rw (p, q)
      (ap (λ path. path_of path (reserve (tracer_close t).0.start_id (create_seq a fs.seq)))
        (tracer_close-path t))
opens_file-path_of op_close t fs e = absurd (ground (arith, e))
opens_file-path_of (op_printf formatted) t fs e = absurd (ground (arith, e))
opens_file-path_of (op_set_start_id start_id) t fs e = absurd (ground (arith, e))
opens_file-path_of op_get_id_as_string t fs e = absurd (ground (arith, e))

perform-path : (op : Op) (t : Tracer) (fs : Files) → (perform op t fs).0.path ≡ t.path
unfolding perform tracer_set_start_id
perform-path (op_open a) t fs = tracer_open-path a t fs
perform-path op_close t fs = tracer_close-path t
perform-path (op_printf formatted) t fs = refl
perform-path (op_set_start_id start_id) t fs = refl
perform-path op_get_id_as_string t fs = refl

module _ (path : Bytes) where
  -- All the tracers are in the directory.
  abbrev pub IsShared : Directory → Type 0
  IsShared d = (i : ℕ) → (d.0 i).path ≡ path

  pub perform_by-IsShared :
      (i : ℕ) (op : Op) (d : Directory) → IsShared d → IsShared (perform_by i op d)
  unfolding perform_by
  perform_by-IsShared i op d h j = elim (Bool-cases (j == i)) [
    | inl e ↦
        ap (λ (t : Tracer). t.path) (if_true (j == i) _ _ e) ∙ perform-path op (d.0 i) d.1 ∙ h i
    | inr e ↦ ap (λ (t : Tracer). t.path) (if_false (j == i) _ _ e) ∙ h j
  ]

  opened_step :
      (i : ℕ) (op : Op) (ops : List (ℕ × Op)) (d : Directory) (n : ℕ)
      → IsShared d
      → n + 1 < 2 ^ 64
      → takes_number op (d.0 i) ≡ true
      → (perform op (d.0 i) d.1).0.id ≡ n + 1
      → IsFresh path (n + 1) (opened ops (perform_by i op d))
      → IsFresh path n (opened ((i, op) ∷ ops) d)
  unfolding opened IsFresh
  opened_step i op ops d n shared k on id rest = elim (Bool-cases (opens_file op (d.0 i))) [
    | inl o ↦ subst (IsFresh path n) (sym (if_true (opens_file op (d.0 i)) _ _ o)) (
      n + 1,
      (
        omega arith,
        (
          k,
          (
            ap (λ (t : Tracer). t.filepath) (perform_by_here i op d)
                ∙ opens_file-path_of op (d.0 i) d.1 o
                ∙ ap₂ path_of (shared i) id,
            rest,
          ),
        ),
      ),
    )
    | inr o ↦
        subst (IsFresh path n) (sym (if_false (opens_file op (d.0 i)) _ _ o))
          (IsFresh-weaken path n (n + 1) (opened ops (perform_by i op d)) (omega arith) rest)
  ]

  opened-IsFresh :
      (ops : List (ℕ × Op)) (n : ℕ) (d : Directory)
      → IsShared d
      → d.1.seq ≡ some n
      → 0 < n
      → n + length ops < 2 ^ 64
      → IsFresh path n (opened ops d)
  unfolding opened IsFresh perform_by
  opened-IsFresh [] n d shared e h k = tt
  opened-IsFresh ((i, op) ∷ ops) n d shared e h k =
      let next = perform_by i op d in
      let kept = perform_by-IsShared i op d shared in
      elim (perform-Next op n (d.0 i) d.1 e h (omega (arith, k))) [
        | inl (off, seq) ↦ elim (Bool-cases (opens_file op (d.0 i))) [
          | inl o ↦ absurd (ground (arith, opens_file-takes_number op (d.0 i) o, off))
          | inr o ↦
              subst (IsFresh path n) (sym (if_false (opens_file op (d.0 i)) _ _ o))
                (opened-IsFresh ops n next kept seq h (omega (arith, k)))
        ]
        | inr (on, (id, seq)) ↦
            opened_step i op ops d n shared (omega (arith, k)) on id
              (opened-IsFresh ops (n + 1) next kept seq (omega (arith, h)) (omega (arith, k)))
      ]

-- `x` is not in the list.
pub Absent : Bytes → List Bytes → Type 0
Absent x [] = Unit
Absent x (y ∷ ys) = (x ≢ y) × Absent x ys

pub IsDistinct : List Bytes → Type 0
IsDistinct [] = Unit
IsDistinct (x ∷ xs) = Absent x xs × IsDistinct xs

module _ (path : Bytes) (room : length path + 21 ≤ 4095) where
  IsFresh-Absent :
      (n m : ℕ) (xs : List Bytes)
      → m ≤ n
      → m < 2 ^ 64
      → IsFresh path n xs
      → Absent (path_of path m) xs
  unfolding IsFresh Absent
  IsFresh-Absent n m [] h k f = tt
  IsFresh-Absent n m (x ∷ xs) h k (l, (above, (small, (named, f)))) = (
    λ e. path_of_distinct path m l room k small (omega (arith, h, above)) (e ∙ named),
    IsFresh-Absent l m xs (omega (arith, h, above)) k f,
  )

  IsFresh-IsDistinct : (n : ℕ) (xs : List Bytes) → IsFresh path n xs → IsDistinct xs
  unfolding IsFresh IsDistinct
  IsFresh-IsDistinct n [] f = tt
  IsFresh-IsDistinct n (x ∷ xs) (l, (above, (small, (named, f)))) = (
    subst (λ y. Absent y xs) (sym named) (IsFresh-Absent l l xs (omega arith) small f),
    IsFresh-IsDistinct l xs f,
  )

-- For any number of tracers on one directory, any list of their calls, with the number `n` in
-- `.seq`, 64 bits enough for the numbers and room for 21 bytes behind the directory's path: no two
-- calls of `tracer_open` open the same trace file, and none opens a file that a number up to `n`
-- names, so that no trace is overwritten.
pub opened_once :
    (path : Bytes) (ops : List (ℕ × Op)) (n : ℕ) (d : Directory)
    → length path + 21 ≤ 4095
    → IsShared path d
    → d.1.seq ≡ some n
    → 0 < n
    → n + length ops < 2 ^ 64
    → IsDistinct (opened ops d) × ((m : ℕ) → m ≤ n → Absent (path_of path m) (opened ops d))
opened_once path ops n d room shared e h k =
    let fresh = opened-IsFresh path ops n d shared e h k in
    (
      IsFresh-IsDistinct path room n (opened ops d) fresh,
      λ m l. IsFresh-Absent path room n m (opened ops d) l (omega (arith, l, k)) fresh,
    )
