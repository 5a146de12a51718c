-- ===== src/Logger/Copies.antt =====
-- A sequence of messages, on the console and in the log file.
use libc_jss.Base.{
  if◌then◌else◌, ==_refl, Bytes, cstr, IsText, str_eq, ◌≡◌, refl, sym, ap, ap₂, subst, ◌∙◌, Bool,
  true, false, ◌&&◌, List, [], ◌∷◌, ◌++◌, append-nil, append_assoc,
}
use libc_jss.Logger.{CallMode, Place, Clock, Logger, Output, con_init, con_writef}
use libc_jss.Logger.Lines.{AreTexts, line_of, written, con_init-logfile, con_writef_lem}

-- A call of `_con_writef`: what it is given, and whether the log file can be opened in it.
pub record Message : Type 0 where
  pub mode : CallMode
  pub place : Place
  pub clock : Clock
  pub formatted : Bytes
  pub opens : Bool

unfoldable pub write_all : List Message → Logger → Output → Logger × Output
write_all [] l out = (l, out)
write_all (m ∷ ms) l out =
    let r = con_writef m.mode m.place m.clock m.formatted m.opens l out in write_all ms r.0 r.1

-- The formats give strings, and the file can be opened.
abbrev pub AreWritten : List Message → Type 0
AreWritten [] = Unit
AreWritten (m ∷ ms) =
    AreTexts m.clock m.place × IsText m.formatted × (m.opens ≡ true) × AreWritten ms

-- The lines of the messages; the first of them initialises the logger.
unfoldable pub lines_of : List Message → Logger → Bytes
lines_of [] l = []
lines_of (m ∷ ms) l =
    line_of m.mode m.place m.clock m.formatted l ++ lines_of ms (con_init m.clock l)

-- What a file has been given, in its order.
unfoldable pub text_of : Bytes → List (Bytes × Bytes) → Bytes
text_of file [] = []
text_of file ((name, text) ∷ appended) =
    text_of file appended ++ (if str_eq name file then text else [])

str_eq_refl : (s : Bytes) → str_eq s s ≡ true
str_eq_refl [] = refl
str_eq_refl (c ∷ s) = rw (==_refl c) (str_eq_refl s)

-- The console and the file have both been given a text, and no other file anything.
abbrev Gives : Bytes → Bytes → Output → Output → Type 0
Gives file text out out' =
    (out'.console ≡ out.console ++ text)
    × (text_of file out'.appended ≡ text_of file out.appended ++ text)
    × ((other : Bytes)
        → str_eq file other ≡ false
        → text_of other out'.appended ≡ text_of other out.appended)

written-Gives :
    (file line : Bytes) (out : Output) → Gives file line out (written true file line out)
unfolding text_of
written-Gives file line out =
    (refl, rw (str_eq_refl file) refl, λ other e. rw e (append-nil (text_of other out.appended)))

Gives-append :
    (file s t : Bytes) (out mid after : Output)
    → Gives file s out mid
    → Gives file t mid after
    → Gives file (s ++ t) out after
Gives-append file s t out mid after h k = (
  k.0 ∙ ap (λ u. u ++ t) h.0 ∙ append_assoc out.console s t,
  k.1 ∙ ap (λ u. u ++ t) h.1 ∙ append_assoc (text_of file out.appended) s t,
  λ other e. k.2 other e ∙ h.2 other e,
)

-- With a log file set, and where it can be opened in every call and the formats give strings: after
-- any sequence of messages of any modes, what they have printed on the console and what they have
-- appended to the log file are the same text, the line of each message in their order; and no other
-- file has changed.
pub messages_copied :
    (ms : List Message) (l : Logger) (out : Output)
    → l.logfile ≡ true
    → AreWritten ms
    → let after = (write_all ms l out).1 in
      let file = cstr l.logfile_buf in
      (after.console ≡ out.console ++ lines_of ms l)
      × (text_of file after.appended ≡ text_of file out.appended ++ lines_of ms l)
      × ((other : Bytes)
          → str_eq file other ≡ false
          → text_of other after.appended ≡ text_of other out.appended)
unfolding write_all lines_of
messages_copied [] l out e h = (sym (append-nil out.console), sym (append-nil _), λ other k. refl)
messages_copied (m ∷ ms) l out e (texts, text, opens, rest) =
    let file = cstr l.logfile_buf in
    let line = line_of m.mode m.place m.clock m.formatted l in
    let l' = con_init m.clock l in
    let (logs, buffer) = con_init-logfile m.clock l in
    let one =
      (con_writef_lem m.mode m.place m.clock m.formatted m.opens l out texts text).0
      ∙ ap (λ b. (l', written b file line out)) (ap₂ (λ a b. a && b) e opens) in
    let later = messages_copied ms l' (written true file line out) (logs ∙ e) rest in
    let same =
      subst
        (λ f.
          Gives f (lines_of ms l') (written true file line out)
            (write_all ms l' (written true file line out)).1)
        (ap cstr buffer) later in
    subst
      (λ (r : Logger × Output). Gives file (line ++ lines_of ms l') out (write_all ms r.0 r.1).1)
      (sym one)
      (Gives-append file line (lines_of ms l') out (written true file line out)
        (write_all ms l' (written true file line out)).1 (written-Gives file line out) same)
