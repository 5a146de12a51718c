-- ===== src/Logger/Examples.antt =====
-- Messages of logger.c, and the instances of its theorems.
use libc_jss.Base.{
  Bytes, codes, cstr, str_eq, ◌≡◌, refl, true, false, some, List, [], ◌∷◌, ◌++◌, arith,
}
use libc_jss.Logger.{
  CallMode, conf, confn, conft, debug, Logger, Output, Clock, Place, initial, con_logfile,
  con_writef,
}
use libc_jss.Logger.Copies.{Message, write_all, lines_of, text_of, messages_copied}
use libc_jss.Logger.Lines.{AreTexts}

abbrev place : Place
place = record { file = codes "a.c"; line = codes "12"; function = codes "main" }

abbrev clock : Clock
clock = record {
  at_init = (10, 0);
  now = (11, 500000);
  strftime = λ format sec. codes "Mon 08:00:00";
  elapsed = λ d. codes "1.500";
}

abbrev nothing : Output
nothing = record { console = []; appended = [] }

abbrev to_file : Logger
unfolding con_logfile
to_file = con_logfile (some (codes "log")) initial

abbrev console_of : CallMode → Bytes
unfolding con_writef
console_of cm = (con_writef cm place clock (codes "hi\n\n") true to_file nothing).1.console

console_conf : console_of conf ≡ codes "hi\n"
unfolding console_of to_file libc_jss.Misc.Strip.chomp libc_jss.Misc.Strip.clear_back
console_conf = refl

console_confn : console_of confn ≡ codes "hi"
unfolding console_of to_file libc_jss.Misc.Strip.chomp libc_jss.Misc.Strip.clear_back
console_confn = refl

console_conft : console_of conft ≡ codes "Mon 08:00:00 hi\n"
unfolding console_of to_file libc_jss.Misc.Strip.chomp libc_jss.Misc.Strip.clear_back
console_conft = refl

console_debug : console_of debug ≡ codes "Mon 08:00:00 /1.500/ [a.c:12 main]: hi\n"
unfolding console_of to_file libc_jss.Misc.Strip.chomp libc_jss.Misc.Strip.clear_back
console_debug = refl

strings : AreTexts clock place
strings = record {
  stamps = λ format sec. omega arith;
  elapses = λ d. omega arith;
  file = omega arith;
  line = omega arith;
  function = omega arith;
}

abbrev two_messages : List Message
two_messages =
    record { mode = conft; place = place; clock = clock; formatted = codes "hi\n"; opens = true }
    ∷ record { mode = confn; place = place; clock = clock; formatted = codes "ok"; opens = true }
    ∷ []

two_lines : lines_of two_messages to_file ≡ codes "Mon 08:00:00 hi\nok"
unfolding lines_of to_file libc_jss.Logger.compose
two_lines = refl

messages_copied_example :
    let after = (write_all two_messages to_file nothing).1 in
    let file = cstr to_file.logfile_buf in
    (after.console ≡ nothing.console ++ lines_of two_messages to_file)
    × (text_of file after.appended ≡ text_of file nothing.appended ++ lines_of two_messages to_file)
    × ((other : Bytes)
        → str_eq file other ≡ false
        → text_of other after.appended ≡ text_of other nothing.appended)
unfolding to_file
messages_copied_example =
    messages_copied two_messages to_file nothing refl
      (strings, omega arith, refl, (strings, omega arith, refl, tt))
