-- ===== src/Programs/Asking/Prints.antt =====
-- What the program prints.
use libc_jss.Base.{
  if◌then◌else◌, drop, Bytes, codes, ℕ, ◌≡◌, refl, sym, ap, ap₂, subst, ◌∙◌, List, [], ◌∷◌,
}
use libc_jss.Amysql.{Amysql, Outcome, initial, invoke_callback}
use libc_jss.Amysql.Rows.{Arguments, arguments, AllFit, all_expected}
use libc_jss.Amysql.Served.{Exchange, start, asks, seconds, served}
use libc_jss.Programs.Asking.{Program, started, q, Runs, begin, ticks, works, answers, once}

-- A run of the program is one of the two threads, in which each callback prints what it is given.
record Follows (os : List Outcome) (p : Program) : Type 0 where
  asked : List (ℕ × Bytes)
  worked : List (Bytes × Outcome)
  called : List (ℕ × Arguments)
  exchange : Exchange asked worked called p.amysql
  ended : seconds worked ≡ os
  shown : p.shown ≡ seconds called

q-Follows : (os : List Outcome) (p : Program) → Follows os p → Follows os (q p)
q-Follows os p f =
    let text = codes "select * from smsout where sent='0' order by RAND()" in
    record {
      asked = _;
      worked = f.worked;
      called = f.called;
      exchange = asks f.asked f.worked f.called 1 text p.amysql f.exchange;
      ended = f.ended;
      shown = f.shown;
    }

invoke_callback-arguments : (t : Amysql) → arguments (invoke_callback t) ≡ arguments t
unfolding invoke_callback
invoke_callback-arguments t = refl

Runs-Follows : (n : ℕ) (os : List Outcome) (p : Program) → Runs n os p → Follows os p
Runs-Follows _ _ _ (begin err) = q-Follows [] (started err) (record {
  asked = [];
  worked = [];
  called = [];
  exchange = start initial.option err;
  ended = refl;
  shown = refl;
})
Runs-Follows _ _ _ (ticks n os p r) = Runs-Follows n os p r
Runs-Follows _ _ _ (works n os o p r there e) =
    let f = Runs-Follows n os p r in
    record {
      asked = f.asked;
      worked = (p.amysql.querybuf, o) ∷ f.worked;
      called = f.called;
      exchange = Exchange.works f.asked f.worked f.called o p.amysql f.exchange there e;
      ended = ap (λ l. o ∷ l) f.ended;
      shown = f.shown;
    }
Runs-Follows _ _ _ (answers n os p r e) =
    let f = Runs-Follows n os p r in
    record {
      asked = f.asked;
      worked = f.worked;
      called = (p.amysql.callback, arguments p.amysql) ∷ f.called;
      exchange = Exchange.answers f.asked f.worked f.called p.amysql f.exchange e;
      ended = f.ended;
      shown = ap₂ (λ a l. a ∷ l) (invoke_callback-arguments p.amysql) f.shown;
    }
Runs-Follows _ _ _ (once n os left p r e) =
    let f = Runs-Follows n os p r in
    q-Follows os (record p { due = left })
      (record {
        asked = f.asked;
        worked = f.worked;
        called = f.called;
        exchange = f.exchange;
        ended = f.ended;
        shown = f.shown;
      })

-- In every run of the program in which each row has room in the buffers: the program prints the
-- rows of its queries, each once, whole and in their order, but for a query whose callback is still
-- to be called. A query that fails prints its message if it is shorter than 256
-- bytes, and else 256 bytes of it and what lies behind `error_str`; one with a row prints no message or, if a
-- query has failed and none since then ended without a row, an empty one.
pub prints_rows :
    (n : ℕ) (os : List Outcome) (p : Program)
    → AllFit os
    → Runs n os p
    → p.shown ≡ drop (if p.amysql.sent_main then 1 else 0) (all_expected os)
prints_rows n os p fits r =
    let f = Runs-Follows n os p r in
    let fit : AllFit (seconds f.worked) = subst AllFit (sym f.ended) fits in
    f.shown
    ∙ (served f.asked f.worked f.called p.amysql fit f.exchange).2
    ∙ ap (λ l. drop (if p.amysql.sent_main then 1 else 0) (all_expected l)) f.ended
