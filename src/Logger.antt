-- ===== src/Logger.antt =====
-- logger.c: messages on the console and in a log file. What `gettimeofday`, `strftime` and the
-- formats of `printf` give are arguments; `elapsed` is the format `"%3.3f"`, of a number of
-- microseconds that is divided by 1000000.
pub mod Lines
pub mod Copies
mod Examples
use libc_jss.Base.{
  ltb, leb, ◌==◌, if◌then◌else◌, ltb→lt, lt→ltb, le_of_not_ltb, leb→le, ==_iff, Bool-cases,
  Option-cases, length, get_or, set, take, drop, replicate, reverse_onto, take_while, drop_while,
  keep_if, length-append, length-set, length-take, length-drop, length-replicate, take-append-drop,
  take_all, take_while-append-drop_while, length-drop_while-le, length-keep_if-le, get_or-append,
  set-append, nil_of_length, length_snoc, get_or-drop, drop_next, get_or_behind, take-append_left,
  take_middle, Bytes, codes, cstr, strlen, IsText, contains, starts_with, str_eq, cstr_text,
  strlen_text, cstr-IsText, cstr_idem, append-IsText, take-IsText, strncpy, cstr_front,
  get_or-strncpy, decimal, decimal_injective, length-decimal-le, ℤ, pos, negsuc, ℕ, zero, suc, ◌+◌,
  ◌-◌, ◌*◌, ◌/◌, ◌%◌, ◌^◌, ◌≤◌, ◌<◌, min, ◌≡◌, refl, sym, ap, ap₂, subst, subst₂, ◌∙◌, ◌≡⟨◌⟩◌, ◌∎,
  ◌≢◌, ◌↔◌, ◌⊎◌, inl, inr, Bool, true, false, not, ◌&&◌, ◌||◌, Option, none, some, List, [], ◌∷◌,
  ◌++◌, map, reverse, append-nil, append_assoc, arith,
}
use libc_jss.Misc.Strip.{chomp}

pub data CallMode : Type 0 where
  conf : CallMode
  confn : CallMode
  conft : CallMode
  conftn : CallMode
  debug : CallMode

-- `struct timeval`, with the seconds first
abbrev pub Time : Type 0
Time = ℕ × ℕ

-- The globals. `logfile` and `own_format` hold where the pointers are at the two buffers.
pub record Logger : Type 0 where
  pub logfile : Bool
  pub logfile_buf : Bytes
  pub own_format : Bool
  pub timestamp_format_buf : Bytes
  pub initialised : Bool
  pub first_time : Time

-- What has been printed, and what has been appended to which file, the latest first.
pub record Output : Type 0 where
  pub console : Bytes
  pub appended : List (Bytes × Bytes)

pub record Clock : Type 0 where
  pub at_init : Time
  pub now : Time
  pub strftime : Bytes → ℕ → Bytes
  pub elapsed : ℤ → Bytes

abbrev pub initial : Logger
initial = record {
  logfile = false;
  logfile_buf = replicate 128 0;
  own_format = false;
  timestamp_format_buf = replicate 128 0;
  initialised = false;
  first_time = (0, 0);
}

pub con_init : Clock → Logger → Logger
con_init clock l =
    if l.initialised then l else record l { first_time = clock.at_init; initialised = true }

-- `sizeof` stands where the buffer's last byte should be spared.
unfoldable pub con_logfile : Option Bytes → Logger → Logger
con_logfile none l = record l { logfile = false }
con_logfile (some file) l = record l {
  logfile_buf = strncpy l.logfile_buf file 128;
  logfile = true;
}

unfoldable pub con_timestamp_format : Option Bytes → Logger → Logger
con_timestamp_format none l = record l { own_format = false }
con_timestamp_format (some format) l = record l {
  timestamp_format_buf = strncpy l.timestamp_format_buf format 128;
  own_format = true;
}

abbrev pub timestamp_format : Logger → Bytes
timestamp_format l = if l.own_format then cstr l.timestamp_format_buf else codes "%a %H:%M:%S"

abbrev pub microseconds : Time → ℕ
microseconds (sec, usec) = sec * 1000000 + usec

-- `delta` of `get_time`
abbrev pub delta : Time → Time → ℤ
delta now first =
    let a = microseconds now in
    let b = microseconds first in if leb b a then pos (a - b) else negsuc (b - a - 1)

-- The elapsed time, which `snprintf` cuts to 7 bytes.
abbrev pub elapsed_text : Clock → Logger → Bytes
elapsed_text clock l = take 7 (clock.elapsed (delta clock.now l.first_time))

-- Where a debug message comes from; the line stands as its digits.
pub record Place : Type 0 where
  pub file : Bytes
  pub line : Bytes
  pub function : Bytes

abbrev pub is_quiet : CallMode → Bool
is_quiet conf = false
is_quiet confn = true
is_quiet conft = false
is_quiet conftn = true
is_quiet debug = false

-- `"%s /%s/ [%s:%d %s]: "`, with the time and the place
abbrev pub debug_head : Bytes → Bytes → Place → Bytes
debug_head timestamp elapsed place =
    timestamp
    ++ (codes " /"
        ++ (elapsed
            ++ (codes "/ ["
                ++ (place.file
                    ++ (codes ":"
                        ++ (place.line ++ (codes " " ++ (place.function ++ codes "]: "))))))))

-- The text that the `switch` puts into `tmp`, which has room for 1023 bytes.
pub compose : CallMode → Clock → Place → Bytes → Logger → Bytes
compose conf clock place message l = take 1023 message
compose confn clock place message l = take 1023 message
compose conft clock place message l =
    take 1023 (clock.strftime (timestamp_format l) clock.now.0 ++ 32 ∷ message)
compose conftn clock place message l =
    take 1023 (clock.strftime (timestamp_format l) clock.now.0 ++ 32 ∷ message)
compose debug clock place message l = take 1023 (
    debug_head (clock.strftime (timestamp_format l) clock.now.0) (elapsed_text clock l) place
    ++ message)

-- `tmp` is 0 behind its text.
abbrev pub in_tmp : Bytes → Bytes
in_tmp text = text ++ 0 ∷ replicate (1023 - length text) 0

-- `chomp(tmp)`, and `"%s"`
abbrev pub printed : Option Bytes → Bytes
printed none = []
printed (some buf) = cstr buf

abbrev pub ending : CallMode → Bytes
ending cm = if is_quiet cm then [] else b'\n' ∷ []

-- What is printed: the text, and the end of the line in a call of its own.
pub show : CallMode → Bytes → Logger → Bool → Output → Output
show cm text l opens out =
    let out' = record out { console = out.console ++ (text ++ ending cm) } in
    if l.logfile && opens
    then record out' { appended = (cstr l.logfile_buf, text ++ ending cm) ∷ out.appended }
    else out'

-- `_con_writef`; `opens` says whether the log file can be opened.
unfoldable pub con_writef :
    CallMode → Place → Clock → Bytes → Bool → Logger → Output → Logger × Output
unfolding con_init compose show
con_writef cm place clock formatted opens l out =
    let l' = con_init clock l in
    let text = compose cm clock place (take 1023 formatted) l' in
    (l', show cm (printed (chomp (some (in_tmp text)))) l' opens out)
