-- ===== src/Programs/Examples.antt =====
-- Runs of the programs.
use libc_jss.Base.{
  if◌then◌else◌, length, drop, Bytes, codes, pos, negsuc, ℕ, ◌+◌, ◌/◌, ◌≡◌, refl, ◌⊎◌, Bool, true,
  false, none, some, [], ◌∷◌, arith,
}
use libc_jss.UrlParser.{Heap}
use libc_jss.Htclient.{Peer}
use libc_jss.Htclient.Headers.{Headers}
use libc_jss.Amysql.{
  ended, Row, Outcome, query_failed, fetched, query_and_evasync, query, save_fields, amysql_query,
  invoke_callback,
}
use libc_jss.Programs.Asking.{Program, q, cbtest, Runs, begin, works, answers, once}
use libc_jss.Amysql.Rows.{AllFit, all_expected}
use libc_jss.Programs.Asking.Rounds.{CanGoOn, asks_for_ever}
use libc_jss.Programs.Asking.Prints.{prints_rows}
use libc_jss.Programs.Fetching
use libc_jss.Programs.Fetching.{serves}
use libc_jss.Programs.Fetching.Ends.{main-ends}
use libc_jss.Programs.Fetching.Headers.{answering}
use libc_jss.Tracer.{Files, Answers}
use libc_jss.Programs.Tracing
use libc_jss.Programs.Tracing.{traced, main_lem}

-- A query that fails, and one that finds a row.
abbrev refused : Outcome
refused = query_failed (codes "no table")

abbrev row : Row
row = some (codes "7") ∷ none ∷ []

abbrev asked : Program
asked = libc_jss.Programs.Asking.main (pos 0)

-- With no other thread, the work that is sent to it is not done.
no_thread : (libc_jss.Programs.Asking.main (pos 11)).amysql.running ≡ false
unfolding amysql_query
no_thread = refl

abbrev failed : Program
failed = record asked { amysql = query_and_evasync refused asked.amysql }

abbrev told : Program
told = cbtest (record failed { amysql = invoke_callback failed.amysql })

abbrev again : Program
again = q (record told { due = 0 })

abbrev found : Program
found = record again { amysql = query_and_evasync (fetched row) again.amysql }

abbrev printed : Program
printed = cbtest (record found { amysql = invoke_callback found.amysql })

asked-sent : asked.amysql.sent_thread ≡ true
unfolding amysql_query
asked-sent = refl

asked-running : asked.amysql.running ≡ true
unfolding amysql_query
asked-running = refl

failed-sent : failed.amysql.sent_main ≡ true
unfolding query_and_evasync
failed-sent = refl

told-due : told.due ≡ 1
told-due = refl

again-sent : again.amysql.sent_thread ≡ true
unfolding amysql_query invoke_callback query_and_evasync query
again-sent = refl

again-running : again.amysql.running ≡ true
unfolding amysql_query invoke_callback query_and_evasync query
again-running = refl

found-sent : found.amysql.sent_main ≡ true
unfolding query_and_evasync
found-sent = refl

run : Runs 5 (fetched row ∷ refused ∷ []) printed
run =
    answers 4 (fetched row ∷ refused ∷ []) found
      (works 3 (refused ∷ []) (fetched row) again
        (once 2 (refused ∷ []) 0 told
          (answers 1 (refused ∷ []) failed
            (works 0 [] refused asked (begin (pos 0)) asked-running asked-sent) failed-sent)
          told-due)
        again-running again-sent)
      found-sent

row-AllFit : AllFit (fetched row ∷ refused ∷ [])
unfolding save_fields
row-AllFit = ((ground arith, omega arith, refl), (tt, tt))

asks_for_ever_example :
    ((printed.amysql.running ≡ true)
      × (printed.refused ≡ 0)
      × CanGoOn printed
      × (printed.asked ≡ 5 / 3 + 1)
      × (length printed.shown ≡ (5 + 1) / 3))
    ⊎ ((printed.amysql.running ≡ false)
        × (◌≡◌ {A = ℕ} 5 0)
        × (printed.asked ≡ 1)
        × (printed.amysql.sent_thread ≡ true)
        × (printed.amysql.sent_main ≡ false)
        × (printed.due ≡ 0)
        × (length printed.shown ≡ 0))
asks_for_ever_example = asks_for_ever 5 (fetched row ∷ refused ∷ []) printed run

prints_rows_example :
    printed.shown
    ≡ drop (if printed.amysql.sent_main then 1 else 0) (all_expected (fetched row ∷ refused ∷ []))
prints_rows_example = prints_rows 5 (fetched row ∷ refused ∷ []) printed row-AllFit run

-- The row is whole, and it comes with an empty message.
row_with_message :
    printed.shown
    ≡ record { count = 2; error = some (ended []); fields = some (codes "7") ∷ none ∷ [] }
      ∷ record { count = 0; error = some (ended (codes "no table")); fields = [] }
      ∷ []
unfolding query_and_evasync query save_fields amysql_query invoke_callback
row_with_message = refl

abbrev granting : ℕ → Bool
granting n = true

abbrev heap : Heap
heap = record { calls = 0; live = 0 }

abbrev status_line : Bytes × Bytes × Bytes
status_line = (codes "HTTP/1.1", codes " ", codes "200 OK")

abbrev fields : Headers
fields =
    (codes "Auth-Status", codes ": ", codes "OK") ∷ (codes "Auth-server", codes ":", codes "h") ∷ []

abbrev silent : Peer
silent = record (answering []) { answer = none }

main-ends_example :
    let r = Fetching.main granting silent 3 heap in
    (r.status ≡ (if serves silent then pos 0 else negsuc 0))
    × (r.fds ≡ 3)
    × (r.heap.live ≡ heap.live + 5)
main-ends_example = main-ends granting silent 3 heap (λ n. refl) (tt, tt)

abbrev files : Files
files = record { seq = some 41; written = [] }

abbrev all_well : Answers
all_well = record { creates = true; opens_seq = true; opens_file = true }

traced_file :
    Tracing.main (codes "/tmp/proba") true all_well true files
    ≡ traced (codes "/tmp/proba") 42 true files
traced_file = main_lem (codes "/tmp/proba") all_well files (omega arith) (omega arith)
