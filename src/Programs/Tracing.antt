-- ===== src/Programs/Tracing.antt =====
-- tracer/test_tracer.c: a program that opens a trace file, writes two lines and closes it.
use libc_jss.Base.{
  ◌==◌, if◌then◌else◌, Bool-cases, length, Bytes, codes, ℤ, negsuc, ℕ, ◌+◌, ◌^◌, ◌<◌, ◌≡◌, refl,
  inl, inr, Bool, true, false, Option, none, some, ◌∷◌, arith,
}
use libc_jss.Tracer.{
  Files, Answers, create_seq, read_seq, reserve, new_id, tracer_new, tracer_open, tracer_printf,
  tracer_close, path_of,
}

-- What `main` returns, the number that it prints, if there is memory for a tracer, and the files.
pub record Ended : Type 0 where
  pub status : ℤ
  pub printed : Option ℕ
  pub files : Files

module _ (resolved : Bytes) (exists : Bool) (a : Answers) where
  abbrev pub use_tracer : Files → Ended
  use_tracer fs =
      let (t, fs1) = tracer_open a (tracer_new resolved exists) fs in
      let fs2 = tracer_printf (codes "hello 59\n") t fs1 in
      let fs3 = tracer_printf (codes "hallo 61\n") t fs2 in
      record { status = negsuc 0; printed = some (tracer_close t).1; files = fs3 }

  -- `granted` is the answer of `malloc`.
  abbrev pub main : Bool → Files → Ended
  main granted fs =
      if granted then use_tracer fs else record { status = negsuc 0; printed = none; files = fs }

-- The number behind the one in `.seq`; without one, the numbers start at 10000.
abbrev pub number_behind : Option ℕ → ℕ
number_behind none = 10000
number_behind (some n) = if n == 0 then 10000 else n + 1

-- How the program ends when the trace file with this number is opened, or is not.
abbrev pub traced : Bytes → ℕ → Bool → Files → Ended
traced resolved n opens fs =
    if opens
    then record {
      status = negsuc 0;
      printed = some n;
      files = record {
        seq = some n;
        written =
            (path_of resolved n, codes "hallo 61\n")
            ∷ (path_of resolved n, codes "hello 59\n")
            ∷ fs.written;
      };
    }
    else record { status = negsuc 0; printed = some 0; files = record fs { seq = some n } }

-- How it ends when there is no new number.
abbrev pub untraced : Option ℕ → Files → Ended
untraced seq fs = record { status = negsuc 0; printed = some 0; files = record fs { seq = seq } }

reserve-number_behind :
    (a : Answers) (seq : Option ℕ)
    → read_seq seq + 1 < 2 ^ 64
    → reserve 10000 (create_seq a seq) ≡ number_behind seq
reserve-number_behind a none h = elim (Bool-cases a.creates) [
  | inl c ↦ rw c refl
  | inr c ↦ rw c refl
]
reserve-number_behind a (some n) h = ground (arith, h)

-- With memory and a directory, and 64 bits enough for the next number: the program returns -1
-- however it ends. If `.seq` can be opened, it takes the next number, or 10000 where there is none,
-- and leaves it in `.seq`; and if the trace file can be opened, it holds the two lines, and the
-- number is printed. Else 0 is printed, and nothing is written to a trace file.
pub main_lem :
    (resolved : Bytes) (a : Answers) (fs : Files)
    → 0 < length resolved
    → read_seq fs.seq + 1 < 2 ^ 64
    → main resolved true a true fs ≡ (
        if a.opens_seq
        then traced resolved (number_behind fs.seq) a.opens_file fs
        else untraced (create_seq a fs.seq) fs)
unfolding tracer_open new_id tracer_close tracer_printf
main_lem resolved a fs h k =
    let full : (length resolved == 0) ≡ false = ground (arith, h) in
    elim (Bool-cases a.opens_seq) [
      | inr q ↦ rw (full, q) refl
      | inl q ↦ elim (Bool-cases a.opens_file) [
        | inl o ↦ rw (full, q, o, reserve-number_behind a fs.seq k) refl
        | inr o ↦ rw (full, q, o, reserve-number_behind a fs.seq k) refl
      ]
    ]
