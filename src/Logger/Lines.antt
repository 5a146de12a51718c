-- ===== src/Logger/Lines.antt =====
-- The line that a message becomes, and the names of the log file.
use libc_jss.Base.{
  leb, if◌then◌else◌, leb→le, Bool-cases, length, take, drop, replicate, reverse_onto, drop_while,
  take_all, nil_of_length, take-append_left, Bytes, codes, cstr, IsText, cstr_text, append-IsText,
  take-IsText, strncpy, lengths, ℤ, ℕ, zero, suc, ◌-◌, ◌≤◌, ◌≡◌, refl, sym, ap, subst, ◌∙◌, ◌⊎◌,
  inl, inr, Bool, true, ◌&&◌, some, [], ◌∷◌, ◌++◌, append-nil, arith,
}
use libc_jss.Misc.Strip.{chomp, is_eol}
use libc_jss.Misc.Strip.Back.{strip_end, chomp_lem, length-strip_end-le}
use libc_jss.Logger.{
  CallMode, conf, confn, conft, conftn, debug, Logger, Output, Clock, Place, con_init, con_logfile,
  timestamp_format, elapsed_text, debug_head, compose, in_tmp, printed, ending, show, con_writef,
}

-- What the formats give, and the place, are strings.
pub record AreTexts (clock : Clock) (place : Place) : Type 0 where
  pub stamps : (format : Bytes) (sec : ℕ) → IsText (clock.strftime format sec)
  pub elapses : (d : ℤ) → IsText (clock.elapsed d)
  pub file : IsText place.file
  pub line : IsText place.line
  pub function : IsText place.function

module _ (clock : Clock) (place : Place) (h : AreTexts clock place) (l : Logger) where
  debug_head-IsText :
      IsText
        (debug_head (clock.strftime (timestamp_format l) clock.now.0) (elapsed_text clock l) place)
  debug_head-IsText =
      append-IsText (clock.strftime (timestamp_format l) clock.now.0) _
        (h.stamps (timestamp_format l) clock.now.0)
        (append-IsText (codes " /") _ (omega arith) (
          append-IsText (elapsed_text clock l) _ (take-IsText 7 _ (h.elapses _)) (
            append-IsText (codes "/ [") _ (omega arith) (
              append-IsText place.file _ h.file (
                append-IsText (codes ":") _ (omega arith) (
                  append-IsText place.line _ h.line (
                    append-IsText (codes " ") _ (omega arith)
                      (append-IsText place.function (codes "]: ") h.function (omega arith)))))))))

  compose-IsText :
      (cm : CallMode) (message : Bytes) → IsText message → IsText (compose cm clock place message l)
  unfolding compose
  compose-IsText conf message k = take-IsText 1023 message k
  compose-IsText confn message k = take-IsText 1023 message k
  compose-IsText conft message k =
      take-IsText 1023 _ (append-IsText _ _ (h.stamps _ _) (omega arith, k))
  compose-IsText conftn message k =
      take-IsText 1023 _ (append-IsText _ _ (h.stamps _ _) (omega arith, k))
  compose-IsText debug message k = take-IsText 1023 _ (append-IsText _ _ debug_head-IsText k)

-- The text of a message with its newlines at the end cut off, and one newline unless the call
-- leaves it out.
abbrev pub line_of : CallMode → Place → Clock → Bytes → Logger → Bytes
line_of cm place clock formatted l =
    strip_end is_eol (compose cm clock place (take 1023 formatted) (con_init clock l)) ++ ending cm

reverse_onto-IsText : (s t : Bytes) → IsText s → IsText t → IsText (reverse_onto s t)
reverse_onto-IsText [] t h k = k
reverse_onto-IsText (c ∷ s) t h k = reverse_onto-IsText s (c ∷ t) h.1 (h.0, k)

drop_while-IsText : (p : ℕ → Bool) (s : Bytes) → IsText s → IsText (drop_while p s)
drop_while-IsText p [] h = tt
drop_while-IsText p (c ∷ s) h = elim (Bool-cases (p c)) [
  | inl e ↦ rw e (drop_while-IsText p s h.1)
  | inr e ↦ rw e h
]

strip_end-IsText : (p : ℕ → Bool) (s : Bytes) → IsText s → IsText (strip_end p s)
strip_end-IsText p s h =
    reverse_onto-IsText _ [] (drop_while-IsText p _ (reverse_onto-IsText s [] h tt)) tt

cstr_zeros :
    (s : Bytes) (k : ℕ) (rest : Bytes) → IsText s → cstr (s ++ (replicate k 0 ++ 0 ∷ rest)) ≡ s
cstr_zeros s zero rest h = cstr_text s rest h
cstr_zeros s (suc k) rest h = cstr_text s (replicate k 0 ++ 0 ∷ rest) h

printed-chomp :
    (text : Bytes) → IsText text → printed (chomp (some (in_tmp text))) ≡ strip_end is_eol text
printed-chomp text h =
    ap printed (chomp_lem text (replicate (1023 - length text) 0) h)
    ∙ cstr_zeros (strip_end is_eol text) _ _ (strip_end-IsText is_eol text h)

-- What a line does to the console and, where it goes to a file, to that file.
abbrev pub written : Bool → Bytes → Bytes → Output → Output
written logs file line out = record out {
  console = out.console ++ line;
  appended = if logs then (file, line) ∷ out.appended else out.appended;
}

show_lem :
    (cm : CallMode) (text : Bytes) (l : Logger) (opens : Bool) (out : Output)
    → show cm text l opens out
      ≡ written (l.logfile && opens) (cstr l.logfile_buf) (text ++ ending cm) out
unfolding show
show_lem cm text l opens out = elim (Bool-cases (l.logfile && opens)) [
  | inl e ↦ rw e
  | inr e ↦ rw e
]

pub con_init-logfile :
    (clock : Clock) (l : Logger)
    → ((con_init clock l).logfile ≡ l.logfile) × ((con_init clock l).logfile_buf ≡ l.logfile_buf)
unfolding con_init
con_init-logfile clock l = elim (Bool-cases l.initialised) [
  | inl e ↦ rw e (refl, refl)
  | inr e ↦ rw e (refl, refl)
]

length-ending-le : (cm : CallMode) → length (ending cm) ≤ 1
length-ending-le conf = omega arith
length-ending-le confn = omega arith
length-ending-le conft = omega arith
length-ending-le conftn = omega arith
length-ending-le debug = omega arith

module _ (clock : Clock) (place : Place) (l : Logger) where
  length-compose-le :
      (cm : CallMode) (message : Bytes) → length (compose cm clock place message l) ≤ 1023
  unfolding compose
  length-compose-le conf message = omega lengths
  length-compose-le confn message = omega lengths
  length-compose-le conft message = omega lengths
  length-compose-le conftn message = omega lengths
  length-compose-le debug message = omega lengths

length-line_of-le :
    (cm : CallMode) (place : Place) (clock : Clock) (formatted : Bytes) (l : Logger)
    → length (line_of cm place clock formatted l) ≤ 1024
length-line_of-le cm place clock formatted l =
    let text = compose cm clock place (take 1023 formatted) (con_init clock l) in
    omega (
      lengths,
      length-ending-le cm,
      length-strip_end-le is_eol text,
      length-compose-le clock place (con_init clock l) cm (take 1023 formatted),
    )

pub con_writef_lem :
    (cm : CallMode) (place : Place) (clock : Clock) (formatted : Bytes) (opens : Bool) (l : Logger)
    (out : Output)
    → AreTexts clock place
    → IsText formatted
    → (con_writef cm place clock formatted opens l out ≡ (
      con_init clock l,
      written (l.logfile && opens) (cstr l.logfile_buf) (line_of cm place clock formatted l) out,
    ))
      × (length (line_of cm place clock formatted l) ≤ 1024)
unfolding con_writef
con_writef_lem cm place clock formatted opens l out h k =
    let l' = con_init clock l in
    let text = compose cm clock place (take 1023 formatted) l' in
    let plain : IsText text = compose-IsText clock place h l' cm _ (take-IsText 1023 formatted k) in
    let (same, buffer) = con_init-logfile clock l in
    (
      rw (printed-chomp text plain, show_lem cm (strip_end is_eol text) l' opens out, same, buffer),
      length-line_of-le cm place clock formatted l,
    )

padded_text :
    (n : ℕ) (s : Bytes)
    → IsText s
    → length s ≤ n
    → cstr (take (suc n) (s ++ replicate (suc n - length s) 0)) ≡ s
padded_text n s h k =
    let one_more : suc n - length s ≡ suc (n - length s) = omega arith in
    let fits : length (s ++ replicate (suc n - length s) 0) ≤ suc n = omega lengths in
    rw (take_all (suc n) _ fits, one_more) (cstr_text s (replicate (n - length s) 0) h)

-- After a call of `con_logfile` with a name, messages go to a file. Either the name has 127 bytes
-- at most, and the buffer holds it as a string; or it has more, and then the buffer holds its
-- first 128 bytes and no 0 that ends the string.
pub con_logfile_lem :
    (file : Bytes) (l : Logger)
    → IsText file
    → length l.logfile_buf ≡ 128
    → (con_logfile (some file) l).logfile ≡ true
      × ((length file ≤ 127 × (cstr (con_logfile (some file) l).logfile_buf ≡ file))
          ⊎ (128 ≤ length file
              × ((con_logfile (some file) l).logfile_buf ≡ take 128 file)
              × IsText (con_logfile (some file) l).logfile_buf))
unfolding con_logfile
con_logfile_lem file l h k =
    let behind : drop 128 l.logfile_buf ≡ [] =
      nil_of_length (drop 128 l.logfile_buf) (omega lengths) in
    let padded = file ++ replicate (128 - length file) 0 in
    let all : strncpy l.logfile_buf file 128 ≡ take 128 padded =
      rw (behind, append-nil (take 128 padded)) in
    (
      refl,
      elim (Bool-cases (leb (length file) 127)) [
        | inl e ↦
            let short = leb→le (length file) 127 e in
            inl (short, ap cstr all ∙ padded_text 127 file h short)
        | inr e ↦
            let long : 128 ≤ length file = grind arith in
            let cut = all ∙ take-append_left 128 file (replicate (128 - length file) 0) long in
            inr (long, cut, subst IsText (sym cut) (take-IsText 128 file h))
      ],
    )
