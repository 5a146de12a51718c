-- ===== src/Tracer.antt =====
-- tracer/tracer.c: numbered trace files. The directory's `.seq` file is the number that `fscanf`
-- reads from its front, 0 where it reads none; `none` is a file that does not exist. `stdio` keeps
-- what `fprintf` writes in the stream's buffer until `fclose`. A `NULL` tracer, for which every
-- function returns at once, is not followed.
pub mod Numbering
pub mod Paths
pub mod Names
pub mod Apart
pub mod Race
pub mod Crowd
mod Examples
use libc_jss.Base.{
  ltb, leb, ◌==◌, if◌then◌else◌, if_true, if_false, ltb→lt, lt→ltb, le_of_not_ltb, leb→le, ==_iff,
  ==_refl, Bool-cases, Option-cases, length, get_or, set, take, drop, replicate, reverse_onto,
  take_while, drop_while, keep_if, length-append, length-set, length-take, length-drop,
  length-replicate, take-append-drop, take_all, take_while-append-drop_while, length-drop_while-le,
  length-keep_if-le, get_or-append, set-append, nil_of_length, length_snoc, get_or-drop, drop_next,
  get_or_behind, take-append_left, take_middle, Bytes, length-append_bytes, length-take_bytes,
  length-drop_bytes, length-replicate_bytes, codes, cstr, strlen, IsText, contains, starts_with,
  str_eq, cstr_text, strlen_text, cstr-IsText, cstr_idem, append-IsText, take-IsText, strncpy,
  cstr_front, get_or-strncpy, lengths, decimal, decimal_injective, length-decimal-le, ℤ, pos,
  negsuc, ℕ, zero, suc, ◌+◌, ◌-◌, ◌*◌, ◌/◌, ◌%◌, ◌^◌, ◌≤◌, ◌<◌, min, ◌≡◌, refl, sym, ap, ap₂, subst,
  subst₂, ◌∙◌, ◌≡⟨◌⟩◌, ◌∎, ◌≢◌, ◌↔◌, ◌⊎◌, inl, inr, Bool, true, false, not, ◌&&◌, ◌||◌, Option,
  none, some, List, [], ◌∷◌, ◌++◌, map, reverse, append-nil, append_assoc, arith,
}

pub record Tracer : Type 0 where
  pub id : ℕ
  pub id_as_string : Bytes
  pub start_id : ℕ
  pub file : Bool
  pub path : Bytes
  pub filepath : Bytes
  pub seqpath : Bytes

-- The files: `.seq`, and what has been written to which trace file, the latest first.
pub record Files : Type 0 where
  pub seq : Option ℕ
  pub written : List (Bytes × Bytes)

-- The answers of the system: whether `open` creates `.seq`, whether `.seq` can be opened, and
-- whether the trace file can.
pub record Answers : Type 0 where
  pub creates : Bool
  pub opens_seq : Bool
  pub opens_file : Bool

-- `access` and `open`
abbrev pub create_seq : Answers → Option ℕ → Option ℕ
create_seq a none = if a.creates then some 0 else none
create_seq a (some n) = some n

abbrev pub read_seq : Option ℕ → ℕ
read_seq none = 0
read_seq (some n) = n

-- What is done between the two calls of `flock`: the new number, which stands in the buffer.
abbrev pub reserve : ℕ → Option ℕ → ℕ
reserve start_id seq = if read_seq seq == 0 then start_id else (read_seq seq + 1) % 2 ^ 64

-- `new_id`; the third value holds on failure.
unfoldable pub new_id : Answers → Tracer → Files → Tracer × Files × Bool
new_id a t fs =
    let seq = create_seq a fs.seq in
    let id = reserve t.start_id seq in
    if not a.opens_seq
    then (t, record fs { seq = seq }, true)
    else (record t { id = id }, record fs { seq = some id }, false)

-- The tracer after `tracer_close`, and what it returns.
unfoldable pub tracer_close : Tracer → Tracer × ℕ
tracer_close t = if not t.file then (t, 0) else (record t { file = false; id = 0 }, t.id)

-- `tracer_destroy`, up to the `free` behind it
abbrev pub tracer_destroy : Tracer → Tracer
tracer_destroy t = (tracer_close t).0

-- `snprintf(tra->filepath, sizeof(tra->filepath), "%s/%llu", tra->path, tra->id)`
abbrev pub path_of : Bytes → ℕ → Bytes
path_of path id = take 4095 (path ++ b'/' ∷ decimal id)

abbrev pub start_file : Answers → Tracer → Tracer
start_file a t = record t { filepath = path_of t.path t.id; file = a.opens_file }

unfoldable pub tracer_open : Answers → Tracer → Files → Tracer × Files
unfolding new_id tracer_close
tracer_open a t fs =
    let closed = (tracer_close t).0 in
    let (numbered, fs', failed) = new_id a closed fs in
    if length t.path == 0
    then (t, fs)
    else if failed
    then (numbered, fs')
    else (start_file a numbered, fs')

-- The text is what the format gives.
unfoldable pub tracer_printf : Bytes → Tracer → Files → Files
tracer_printf formatted t fs =
    if not t.file then fs else record fs { written = (t.filepath, formatted) ∷ fs.written }

-- An `int` as an `unsigned long long`.
abbrev pub as_unsigned : ℤ → ℕ
as_unsigned (pos n) = n % 2 ^ 64
as_unsigned (negsuc n) = 2 ^ 64 - (n % 2 ^ 64 + 1)

pub tracer_set_start_id : ℤ → Tracer → Tracer
tracer_set_start_id start_id t = record t { start_id = as_unsigned start_id }

abbrev pub tracer_get_id : Tracer → ℕ
tracer_get_id t = t.id

abbrev pub tracer_get_id_as_string : Tracer → Tracer × Bytes
tracer_get_id_as_string t =
    let text = take 31 (decimal t.id) in (record t { id_as_string = text }, text)

-- `resolved` is what `realpath` stores, and `exists` whether the directory is there after `mkdir`.
abbrev pub tracer_new : Bytes → Bool → Tracer
tracer_new resolved exists =
    let path = if not exists then [] else resolved in
    record {
      id = 0;
      id_as_string = [];
      start_id = 10000;
      file = false;
      path = path;
      filepath = [];
      seqpath = take 4095 (path ++ codes "/.seq");
    }

pub data Op : Type 0 where
  op_open : Answers → Op
  op_close : Op
  op_printf : Bytes → Op
  op_set_start_id : ℤ → Op
  op_get_id_as_string : Op

unfoldable pub perform : Op → Tracer → Files → Tracer × Files
unfolding tracer_open tracer_close tracer_printf tracer_set_start_id
perform (op_open a) t fs = tracer_open a t fs
perform op_close t fs = ((tracer_close t).0, fs)
perform (op_printf formatted) t fs = (t, tracer_printf formatted t fs)
perform (op_set_start_id start_id) t fs = (tracer_set_start_id start_id t, fs)
perform op_get_id_as_string t fs = ((tracer_get_id_as_string t).0, fs)
