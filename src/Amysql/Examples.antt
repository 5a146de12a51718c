-- ===== src/Amysql/Examples.antt =====
-- A query that is saved and read back, a failed one before a good one, and a run of both threads.
use libc_jss.Base.{
  replicate, if◌then◌else◌, length, drop, Bytes, codes, pos, ℕ, ◌+◌, ◌≤◌, ◌<◌, ◌≡◌, refl, ◌⊎◌, true,
  false, none, some, List, [], ◌∷◌, arith,
}
use libc_jss.Amysql.{
  amysql_strerror, query_failed, overrun, Outcome, amysql_is_busy, no_row, Row, Amysql, query,
  query_and_evasync, amysql_query, amysql_sync_query, invoke_callback, initial, amysql_init,
  save_fields, fetched,
}
use libc_jss.Amysql.Saved.{left_of}
use libc_jss.Amysql.Reads.{query_bounds}
use libc_jss.Amysql.Rows.{Arguments, arguments, AllFit, all_expected}
use libc_jss.Amysql.Served.{Exchange, texts_of, firsts, seconds, served}
use libc_jss.Amysql.View.{row_kept}
use libc_jss.Amysql.Progress.{Runs, here, asks, works, answers, runs_deliver}
use libc_jss.Amysql.Threads.{Reachable, InOrder, Reachable-InOrder, ask, work, answer, start, next}

abbrev row : Row
row = some (codes "7") ∷ none ∷ some (codes "ok") ∷ []

row-left : left_of (save_fields row [] []) ≡ false
unfolding save_fields
row-left = refl

query_bounds_example :
    let r = query (fetched row) initial in
    (length r.fieldv ≤ 32) × (length r.fieldbuf ≤ 8191) × (r.fieldc ≡ length r.fieldv)
query_bounds_example = query_bounds row initial

-- A message of 256 bytes is not ended in the array.
long_message :
    amysql_strerror (query (query_failed (replicate 256 b'a')) initial)
    ≡ some (overrun (replicate 256 b'a'))
unfolding query
long_message = refl

abbrev begun : Amysql
begun = (amysql_init (pos 0) (record initial { option = initial.option })).0

abbrev asked : Amysql
asked = (amysql_query 1 (codes "select 1") begun).0

asked-sent : asked.sent_thread ≡ true
unfolding amysql_query
asked-sent = refl

asked-running : asked.running ≡ true
unfolding amysql_query
asked-running = refl

abbrev worked : Amysql
worked = query_and_evasync (fetched row) asked

worked-sent : worked.sent_main ≡ true
unfolding query_and_evasync
worked-sent = refl

abbrev answered : Amysql
answered = invoke_callback worked

worked-Reachable : Reachable worked
worked-Reachable =
    next asked worked
      (next begun asked (start initial.option (pos 0)) (ask 1 (codes "select 1") begun))
      (work (fetched row) asked asked-running asked-sent)

answered-Reachable : Reachable answered
answered-Reachable = next worked answered worked-Reachable (answer worked worked-sent)

Reachable-InOrder_example : InOrder answered
Reachable-InOrder_example = Reachable-InOrder answered answered-Reachable

asked-busy : amysql_is_busy asked ≡ true
unfolding amysql_query
asked-busy = refl

-- The other query is refused, since the first is in progress.
abbrev delivered : Amysql
delivered =
    invoke_callback (query_and_evasync (fetched row) (amysql_query 3 (codes "select 3") asked).0)

still_sent : (amysql_query 3 (codes "select 3") asked).0.sent_thread ≡ true
unfolding amysql_query
still_sent = refl

still_running : (amysql_query 3 (codes "select 3") asked).0.running ≡ true
unfolding amysql_query
still_running = refl

sent_back :
    (query_and_evasync (fetched row) (amysql_query 3 (codes "select 3") asked).0).sent_main ≡ true
unfolding query_and_evasync
sent_back = refl

run_delivers : Runs asked 2 delivered
run_delivers =
    let refused = asks 0 3 (codes "select 3") asked here in
    let worked =
      works 0 (fetched row) (amysql_query 3 (codes "select 3") asked).0 refused still_running
        still_sent in
    answers 1 (query_and_evasync (fetched row) (amysql_query 3 (codes "select 3") asked).0) worked
      sent_back

runs_deliver_example :
    (asked.delivered + 1 ≤ delivered.delivered)
    ⊎ ((2 ≤ 1)
        × (amysql_is_busy delivered ≡ true)
        × ((delivered.sent_thread ≡ true) ⊎ (delivered.sent_main ≡ true))
        × (delivered.running ≡ asked.running))
runs_deliver_example =
    runs_deliver asked 2 delivered
      (next begun asked (start initial.option (pos 0)) (ask 1 (codes "select 1") begun)) asked-busy
      run_delivers

-- The callback is called, and the user's next query is accepted while it runs.
abbrev called : Amysql
called = invoke_callback worked

abbrev asks_again : Amysql
asks_again = (amysql_query 2 (codes "select 2") called).0

row_kept_example :
    (asks_again ≡ record called { option = asks_again.option })
    ⊎ (worked.accepted + worked.synced < asks_again.accepted + asks_again.synced)
row_kept_example =
    row_kept worked 0 asks_again worked-Reachable worked-sent
      (asks 0 2 (codes "select 2") called here)

-- From then on the other thread clears the row that the callback reads.
row_cleared : (query_and_evasync no_row asks_again).fieldc ≡ 0
unfolding query_and_evasync query
row_cleared = refl

-- A synchronous query that is made while another is on its way takes its text away.
text_replaced : (amysql_sync_query (codes "select 9") no_row asked).0.querybuf ≡ codes "select 9"
unfolding query amysql_query
text_replaced = refl

-- The callback of the first query asks the second.
abbrev first_asked : List (ℕ × Bytes)
first_asked = (1, codes "select 1") ∷ []

abbrev both_asked : List (ℕ × Bytes)
both_asked = (2, codes "select 2") ∷ first_asked

abbrev one_worked : List (Bytes × Outcome)
one_worked = (codes "select 1", fetched row) ∷ []

abbrev one_called : List (ℕ × Arguments)
one_called = (1, arguments worked) ∷ []

exchanged : Exchange both_asked one_worked one_called asks_again
unfolding amysql_query query_and_evasync query invoke_callback
exchanged = Exchange.asks first_asked one_worked one_called 2 (codes "select 2") called (
    Exchange.answers first_asked one_worked [] worked
      (Exchange.works first_asked [] [] (fetched row) asked
        (Exchange.asks [] [] [] 1 (codes "select 1") begun (Exchange.start initial.option (pos 0)))
        asked-running asked-sent)
      worked-sent)

exchanged-AllFit : AllFit (seconds one_worked)
exchanged-AllFit = ((ground arith, omega arith, row-left), tt)

served_example :
    (firsts one_worked ≡ drop (if asks_again.sent_thread then 1 else 0) (texts_of both_asked))
    × (firsts one_called ≡ drop (if asks_again.busy then 1 else 0) (firsts both_asked))
    × (seconds one_called
        ≡ drop (if asks_again.sent_main then 1 else 0) (all_expected (seconds one_worked)))
served_example = served both_asked one_worked one_called asks_again exchanged-AllFit exchanged
