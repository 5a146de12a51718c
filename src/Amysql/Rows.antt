-- ===== src/Amysql/Rows.antt =====
-- What a query's end means for the arguments of its callback.
use libc_jss.Base.{
  ltb, ltb→lt, le_of_not_ltb, Bool-cases, length-take, take_all, inl, inr, arith, ◌<◌,
  if◌then◌else◌, length, take, Bytes, codes, ℤ, ℕ, suc, ◌≤◌, ◌≡◌, refl, sym, ap, ◌∙◌, Bool, true,
  false, Option, none, some, List, [], ◌∷◌, map,
}
use libc_jss.Amysql.{
  amysql_strerror, Message, ended, overrun, read_message, Row, Amysql, Outcome, query, save_fields,
  is_nonzero, no_memory, connect_failed, charset_failed, query_failed, no_result, no_row, fetched,
}
use libc_jss.Amysql.Saved.{left_of}
use libc_jss.Amysql.Reads.{AreTexts, read_field, query_reads, query_bounds}

-- What a callback is given: `fieldc`, the message or `NULL`, and the fields read at their pointers.
pub record Arguments : Type 0 where
  pub count : ℕ
  pub error : Option Message
  pub fields : List (Option Bytes)

abbrev pub arguments : Amysql → Arguments
arguments t = record {
  count = t.fieldc;
  error = amysql_strerror t;
  fields = map (read_field t.fieldbuf) t.fieldv;
}

-- A row has room in the two buffers.
abbrev pub Fits : Outcome → Type 0
Fits no_memory = Unit
Fits (connect_failed _) = Unit
Fits (charset_failed _) = Unit
Fits (query_failed _) = Unit
Fits no_result = Unit
Fits no_row = Unit
Fits (fetched row) = AreTexts row × (length row ≤ 32) × (left_of (save_fields row [] []) ≡ false)

abbrev pub AllFit : List Outcome → Type 0
AllFit [] = Unit
AllFit (o ∷ os) = Fits o × AllFit os

-- Whether `error_num` is not 0 behind these queries: a row leaves it as it was.
abbrev pub is_stale : List Outcome → Bool
is_stale [] = false
is_stale (no_memory ∷ os) = true
is_stale (connect_failed _ ∷ os) = true
is_stale (charset_failed _ ∷ os) = true
is_stale (query_failed _ ∷ os) = true
is_stale (no_result ∷ os) = false
is_stale (no_row ∷ os) = false
is_stale (fetched _ ∷ os) = is_stale os

-- What a reader finds of a message that was stored.
abbrev pub told : Bytes → Message
told message = if ltb (length message) 256 then ended message else overrun (take 256 message)

abbrev pub message_of : Outcome → List Outcome → Option Message
message_of no_memory os = some (ended (codes "mysql_init(): Can't allocate memory"))
message_of (connect_failed message) os = some (told message)
message_of (charset_failed message) os = some (told message)
message_of (query_failed message) os = some (told message)
message_of no_result os = none
message_of no_row os = none
message_of (fetched row) os = if is_stale os then some (ended []) else none

abbrev pub row_of : Outcome → Row
row_of no_memory = []
row_of (connect_failed _) = []
row_of (charset_failed _) = []
row_of (query_failed _) = []
row_of no_result = []
row_of no_row = []
row_of (fetched row) = row

-- What the callback of a query that ends so is given, behind those before it.
abbrev pub expected : Outcome → List Outcome → Arguments
expected o os = record { count = length (row_of o); error = message_of o os; fields = row_of o }

abbrev pub all_expected : List Outcome → List Arguments
all_expected [] = []
all_expected (o ∷ os) = expected o os ∷ all_expected os

length-map : {A B : Type 0} (f : A → B) (l : List A) → length (map f l) ≡ length l
length-map f [] = refl
length-map f (x ∷ l) = ap (λ n. suc n) (length-map f l)

row_error :
    (z : ℤ) (b : Bool) (text : Bytes)
    → is_nonzero z ≡ b
    → text ≡ []
    → (if is_nonzero z then some (read_message text) else none)
      ≡ (if b then some (ended []) else none)
row_error z b text e h = rw (e, h) refl

-- The error number and the error text behind a row that fits.
fetched_error :
    (row : Row) (t : Amysql)
    → left_of (save_fields row [] []) ≡ false
    → let r = query (fetched row) t in (r.error_num ≡ t.error_num) × (r.error_str ≡ [])
unfolding query
fetched_error row t fits = rw fits (refl, refl)

fetched-arguments :
    (row : Row) (os : List Outcome) (t : Amysql)
    → Fits (fetched row)
    → is_nonzero t.error_num ≡ is_stale os
    → let r = query (fetched row) t in
      (arguments r ≡ expected (fetched row) os) × (is_nonzero r.error_num ≡ is_stale os)
fetched-arguments row os t (texts, few, fits) e =
    let r = query (fetched row) t in
    let (kept, cleared) = fetched_error row t fits in
    let stale : is_nonzero r.error_num ≡ is_stale os = ap is_nonzero kept ∙ e in
    let read = query_reads row t texts few fits in
    let counted : r.fieldc ≡ length row =
      (query_bounds row t).2 ∙ sym (length-map (read_field r.fieldbuf) r.fieldv) ∙ ap length read in
    let reason = row_error r.error_num (is_stale os) r.error_str stale cleared in
    (λ i. record { count = counted i; error = reason i; fields = read i }, stale)

read_stored : (message : Bytes) → read_message (take 256 message) ≡ told message
read_stored message = elim (Bool-cases (ltb (length message) 256)) [
  | inl e ↦
      let short : length message < 256 = ltb→lt (length message) 256 e in
      rw (take_all 256 message (omega (arith, short)), e) refl
  | inr e ↦
      let long : 256 ≤ length message = le_of_not_ltb (length message) 256 e in
      let all : ltb (length (take 256 message)) 256 ≡ false =
        ground (arith, length-take 256 message, long) in
      rw (e, all) refl
]

-- What a callback is given behind an error.
abbrev fails : Message → Arguments
fails m = record { count = 0; error = some m; fields = [] }

failed-arguments :
    (message : Bytes) → fails (read_message (take 256 message)) ≡ fails (told message)
failed-arguments message = ap fails (read_stored message)

pub query-arguments :
    (o : Outcome) (os : List Outcome) (t : Amysql)
    → Fits o
    → is_nonzero t.error_num ≡ is_stale os
    → (arguments (query o t) ≡ expected o os)
      × (is_nonzero (query o t).error_num ≡ is_stale (o ∷ os))
unfolding query
query-arguments no_memory os t h e = (refl, refl)
query-arguments (connect_failed message) os t h e = (failed-arguments message, refl)
query-arguments (charset_failed message) os t h e = (failed-arguments message, refl)
query-arguments (query_failed message) os t h e = (failed-arguments message, refl)
query-arguments no_result os t h e = (refl, refl)
query-arguments no_row os t h e = (refl, refl)
query-arguments (fetched row) os t h e = fetched-arguments row os t h e
