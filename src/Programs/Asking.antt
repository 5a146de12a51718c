-- ===== src/Programs/Asking.antt =====
-- amysql/test_amysql.c: a program that asks a query, prints the row in the callback, and asks again
-- three seconds later, for ever.
pub mod Rounds
pub mod Prints
use libc_jss.Base.{
  ltb, leb, ◌==◌, if◌then◌else◌, if_true, if_false, ltb→lt, lt→ltb, le_of_not_ltb, leb→le, ==_iff,
  ==_refl, Bool-cases, Option-cases, length, get_or, set, take, drop, replicate, reverse_onto,
  take_while, drop_while, keep_if, length-append, length-set, length-take, length-drop,
  length-replicate, take-append-drop, take_all, take_while-append-drop_while, length-drop_while-le,
  length-keep_if-le, get_or-append, set-append, nil_of_length, length_snoc, get_or-drop, drop_next,
  get_or_behind, take-append_left, take_middle, Bytes, length-append_bytes, length-take_bytes,
  length-drop_bytes, length-replicate_bytes, codes, cstr, strlen, IsText, contains, starts_with,
  str_eq, cstr_text, strlen_text, cstr-IsText, cstr_idem, append-IsText, take-IsText, strncpy,
  cstr_front, get_or-strncpy, lengths, decimal, decimal_injective, length-decimal-le, ℤ, pos,
  negsuc, ℕ, zero, suc, ◌+◌, ◌-◌, ◌*◌, ◌/◌, ◌%◌, ◌^◌, ◌≤◌, ◌<◌, min, ◌≡◌, refl, sym, ap, ap₂, subst,
  subst₂, ◌∙◌, ◌≡⟨◌⟩◌, ◌∎, ◌≢◌, ◌↔◌, ◌⊎◌, inl, inr, Bool, true, false, not, ◌&&◌, ◌||◌, Option,
  none, some, List, [], ◌∷◌, ◌++◌, map, reverse, append-nil, append_assoc, arith,
}
use libc_jss.Amysql.{
  Amysql, Outcome, query_and_evasync, amysql_query, invoke_callback, amysql_strerror, amysql_init,
  initial,
}
use libc_jss.Amysql.Rows.{Arguments, arguments}

-- `due` counts the timers that `ev_once` has set and that have not run, `asked` the calls of `q`,
-- and `refused` those whose `amysql_query` returned an error, which `q` does not look at. What was
-- printed, which is what the callback is given, stands with the latest first.
pub record Program : Type 0 where
  pub amysql : Amysql
  pub due : ℕ
  pub asked : ℕ
  pub refused : ℕ
  pub shown : List Arguments

-- `cbtest` is the callback 1.
abbrev pub q : Program → Program
q p =
    let r = amysql_query 1 (codes "select * from smsout where sent='0' order by RAND()") p.amysql in
    record p { amysql = r.0; asked = p.asked + 1; refused = p.refused + (if r.1 then 0 else 1) }

abbrev pub cbtest : Program → Program
cbtest p = record p { shown = arguments p.amysql ∷ p.shown; due = p.due + 1 }

-- Behind `amysql_init`; `err` is the answer of `pthread_create`, which `main` does not look at.
abbrev pub started : ℤ → Program
started err = record {
  amysql = (amysql_init err initial).0;
  due = 0;
  asked = 0;
  refused = 0;
  shown = [];
}

-- `main` up to the event loop.
abbrev pub main : ℤ → Program
main err = q (started err)

-- The runs of the two event loops, with the number of calls that matter, and how each query ended,
-- the latest first. No other call comes between `invoke_callback` and the callback that it calls:
-- the other thread has nothing to do then, and it works only if it was created. `timeout_cb` only prints.
pub data Runs : ℕ → List Outcome → Program → Type 0 where
  begin : (err : ℤ) → Runs 0 [] (main err)
  ticks : (n : ℕ) (os : List Outcome) (p : Program) → Runs n os p → Runs n os p
  works :
      (n : ℕ) (os : List Outcome) (o : Outcome) (p : Program)
      → Runs n os p
      → p.amysql.running ≡ true
      → p.amysql.sent_thread ≡ true
      → Runs (suc n) (o ∷ os) (record p { amysql = query_and_evasync o p.amysql })
  answers :
      (n : ℕ) (os : List Outcome) (p : Program)
      → Runs n os p
      → p.amysql.sent_main ≡ true
      → Runs (suc n) os (cbtest (record p { amysql = invoke_callback p.amysql }))
  once :
      (n : ℕ) (os : List Outcome) (left : ℕ) (p : Program)
      → Runs n os p
      → p.due ≡ suc left
      → Runs (suc n) os (q (record p { due = left }))
