-- ===== src/Amysql.antt =====
-- amysql/amysql.c: queries that a second thread runs. The globals are a record. `fieldbuf` is the
-- bytes written so far, behind which the array is 0 since the `memset`, and the pointers of
-- `fieldv` are offsets into it. The MySQL library answers by an argument.
pub mod Saved
pub mod Reads
pub mod Rows
pub mod Served
pub mod Threads
pub mod Progress
pub mod View
mod Examples
use libc_jss.Base.{
  ltb, leb, ◌==◌, if◌then◌else◌, if_true, if_false, ltb→lt, lt→ltb, le_of_not_ltb, leb→le, ==_iff,
  ==_refl, Bool-cases, Option-cases, length, get_or, set, take, drop, replicate, reverse_onto,
  take_while, drop_while, keep_if, length-append, length-set, length-take, length-drop,
  length-replicate, take-append-drop, take_all, take_while-append-drop_while, length-drop_while-le,
  length-keep_if-le, get_or-append, set-append, nil_of_length, length_snoc, get_or-drop, drop_next,
  get_or_behind, take-append_left, take_middle, Bytes, length-append_bytes, length-take_bytes,
  length-drop_bytes, length-replicate_bytes, codes, cstr, strlen, IsText, contains, starts_with,
  str_eq, cstr_text, strlen_text, cstr-IsText, cstr_idem, append-IsText, take-IsText, strncpy,
  cstr_front, get_or-strncpy, lengths, decimal, decimal_injective, length-decimal-le, ℤ, pos,
  negsuc, ℕ, zero, suc, ◌+◌, ◌-◌, ◌*◌, ◌/◌, ◌%◌, ◌^◌, ◌≤◌, ◌<◌, min, ◌≡◌, refl, sym, ap, ap₂, subst,
  subst₂, ◌∙◌, ◌≡⟨◌⟩◌, ◌∎, ◌≢◌, ◌↔◌, ◌⊎◌, inl, inr, Bool, true, false, not, ◌&&◌, ◌||◌, Option,
  none, some, List, [], ◌∷◌, ◌++◌, map, reverse, append-nil, append_assoc, arith,
}

pub record Options : Type 0 where
  pub host : Bytes
  pub user : Bytes
  pub password : Bytes
  pub database : Bytes
  pub charset : Bytes
  pub connect_timeout : ℤ
  pub data_timeout : ℤ

abbrev pub Row : Type 0
Row = List (Option Bytes)

-- `sent_thread` and `sent_main` hold between an `ev_async_send` and the watcher's function;
-- `accepted`, `delivered` and `synced` count the queries taken, the callbacks made and the
-- synchronous queries. `running` holds where `amysql_init` created the other thread. `error_str` is
-- what stands before the array's first 0, or all of its 256 bytes.
pub record Amysql : Type 0 where
  pub option : Options
  pub busy : Bool
  pub callback : ℕ
  pub fieldc : ℕ
  pub fieldv : List (Option ℕ)
  pub fieldbuf : Bytes
  pub querybuf : Bytes
  pub error_str : Bytes
  pub error_num : ℤ
  pub running : Bool
  pub sent_thread : Bool
  pub sent_main : Bool
  pub accepted : ℕ
  pub delivered : ℕ
  pub synced : ℕ

abbrev pub amysql_option_host : Bytes → Options → Options
amysql_option_host host o = record o { host = take 63 host }

abbrev pub amysql_option_user : Bytes → Options → Options
amysql_option_user user o = record o { user = take 63 user }

abbrev pub amysql_option_password : Bytes → Options → Options
amysql_option_password password o = record o { password = take 63 password }

abbrev pub amysql_option_database : Bytes → Options → Options
amysql_option_database database o = record o { database = take 63 database }

abbrev pub amysql_option_charset : Bytes → Options → Options
amysql_option_charset charset o = record o { charset = take 15 charset }

abbrev pub amysql_option_connect_timeout : ℤ → Options → Options
amysql_option_connect_timeout timeout o = record o { connect_timeout = timeout }

abbrev pub amysql_option_data_timeout : ℤ → Options → Options
amysql_option_data_timeout timeout o = record o { data_timeout = timeout }

-- `rpos > FIELDBUFSIZE - 2`
abbrev pub is_full : Bytes → Bool
is_full buf = ltb 8190 (length buf)

-- The inner loop; the second value holds where it leaves for `done`.
unfoldable pub copy_field : Bytes → Bytes → Bytes × Bool
copy_field [] buf = (buf, false)
copy_field (c ∷ s) buf =
    let buf' = buf ++ c ∷ [] in
    let later = copy_field s buf' in if is_full buf' then (buf', true) else later

-- The loop over the fields; its result is `fieldv`, `fieldbuf`, and whether it left for `done`.
-- `fieldc` is the length of `fieldv`.
unfoldable pub save_fields : Row → List (Option ℕ) → Bytes → List (Option ℕ) × Bytes × Bool
unfolding copy_field
save_fields [] v buf = (v, buf, false)
save_fields (none ∷ row) v buf =
    let later = save_fields row (v ++ none ∷ []) buf in
    if ltb (length v) 32 then later else (v, buf, false)
save_fields (some s ∷ row) v buf =
    let v' = v ++ some (length buf) ∷ [] in
    let (copied, left) = copy_field s buf in
    let ended = copied ++ 0 ∷ [] in
    let later = save_fields row v' ended in
    if not (ltb (length v) 32)
    then (v, buf, false)
    else if left
    then (v', copied, true)
    else if is_full ended
    then (v', ended, true)
    else later

-- What `query` meets: the library fails to start, an error of one of its calls, no result, no
-- row, or a row.
pub data Outcome : Type 0 where
  no_memory : Outcome
  connect_failed : Bytes → Outcome
  charset_failed : Bytes → Outcome
  query_failed : Bytes → Outcome
  no_result : Outcome
  no_row : Outcome
  fetched : Row → Outcome

abbrev pub reset : Amysql → Amysql
reset t = record t { fieldbuf = []; fieldv = []; error_str = []; fieldc = 0 }

-- A message is a C string. One of 256 bytes or more leaves no 0 in the array.
abbrev pub failed : Bytes → Amysql → Amysql
failed message t = record t { error_str = take 256 message; error_num = negsuc 0 }

-- The charset is only set where the option is not empty.
unfoldable pub query : Outcome → Amysql → Amysql
unfolding save_fields
query no_memory t = failed (codes "mysql_init(): Can't allocate memory") (reset t)
query (connect_failed message) t = failed message (reset t)
query (charset_failed message) t = failed message (reset t)
query (query_failed message) t = failed message (reset t)
query no_result t = record (reset t) { error_num = pos 0 }
query no_row t = record (reset t) { error_num = pos 0 }
query (fetched row) t =
    let (v, buf, left) = save_fields row [] [] in
    record (reset t) {
      fieldv = v;
      fieldbuf = buf;
      fieldc = length v;
      error_num = if left then pos 0 else t.error_num;
    }

unfoldable pub query_and_evasync : Outcome → Amysql → Amysql
unfolding query
query_and_evasync outcome t = record (query outcome t) { sent_thread = false; sent_main = true }

abbrev pub amysql_is_busy : Amysql → Bool
amysql_is_busy t = t.busy

-- The text is what the format gives. The second value holds where 0 is returned.
unfoldable pub amysql_query : ℕ → Bytes → Amysql → Amysql × Bool
amysql_query cb formatted t = if t.busy then (t, false) else (
  record t {
    busy = true;
    querybuf = take 4094 formatted;
    callback = cb;
    sent_thread = true;
    accepted = t.accepted + 1;
  },
  true,
)

-- Up to the call of the user's function. The queries that this function makes are calls of
-- `amysql_query` like others, and the other thread may work while it runs.
unfoldable pub invoke_callback : Amysql → Amysql
invoke_callback t = record t { busy = false; sent_main = false; delivered = t.delivered + 1 }

abbrev pub is_nonzero : ℤ → Bool
is_nonzero (pos n) = not (n == 0)
is_nonzero (negsuc n) = true

-- What is read at `error_str`: a string, or the whole array with no 0 in it, behind which the reader
-- goes on.
pub data Message : Type 0 where
  ended : Bytes → Message
  overrun : Bytes → Message

abbrev pub read_message : Bytes → Message
read_message str = if ltb (length str) 256 then ended str else overrun str

-- `amysql_strerror`, and the callback's last argument
abbrev pub amysql_strerror : Amysql → Option Message
amysql_strerror t = if is_nonzero t.error_num then some (read_message t.error_str) else none

abbrev pub amysql_sync_query : Bytes → Outcome → Amysql → Amysql × ℤ
amysql_sync_query formatted outcome t =
    let s = record t { querybuf = take 4094 formatted; synced = t.synced + 1 } in
    let t' = query outcome s in (t', t'.error_num)

-- The globals before any call.
abbrev pub initial : Amysql
initial = record {
  option = record {
    host = codes "localhost";
    user = [];
    password = [];
    database = [];
    charset = [];
    connect_timeout = pos 10;
    data_timeout = pos 20;
  };
  busy = false;
  callback = 0;
  fieldc = 0;
  fieldv = [];
  fieldbuf = [];
  querybuf = [];
  error_str = [];
  error_num = pos 0;
  running = false;
  sent_thread = false;
  sent_main = false;
  accepted = 0;
  delivered = 0;
  synced = 0;
}

-- `err` is the answer of `pthread_create`; the globals keep what was set before. With an error
-- there is no other thread, and what is sent to it stays.
abbrev pub amysql_init : ℤ → Amysql → Amysql × ℤ
amysql_init err t = (record t { busy = false; running = not (is_nonzero err) }, err)
