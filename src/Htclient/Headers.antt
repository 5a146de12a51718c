-- ===== src/Htclient/Headers.antt =====
-- The header table of a response.
use libc_jss.Base.{
  ◌==◌, length, set, take, drop_while, Bytes, contains, ℕ, suc, ◌<◌, ◌≡◌, refl, ap, true, false,
  not, some, List, [], ◌∷◌, ◌++◌, arith,
}
use libc_jss.Htclient.{Entries, word, skip, name_end, line_end, parse_loop}

abbrev pub Headers : Type 0
Headers = List (Bytes × Bytes × Bytes)

-- A name, a gap and a value, and the end of the line, for each header. The gap is `": "`, or any
-- text of colons and blanks; with a blank for it, the line with the status is one of these.
abbrev pub render : Headers → Bytes
render [] = []
render ((name, gap, value) ∷ hs) = name ++ (gap ++ (value ++ b'\r' ∷ b'\n' ∷ render hs))

abbrev pub Avoids : Bytes → Bytes → Type 0
Avoids bad [] = Unit
Avoids bad (c ∷ s) = (contains bad c ≡ false) × Avoids bad s

-- A text of delimiters of names only.
abbrev pub IsDelimiting : Bytes → Type 0
IsDelimiting [] = Unit
IsDelimiting (c ∷ s) = (contains name_end c ≡ true) × IsDelimiting s

-- A name has a byte, and holds no delimiter; a gap has a byte, and delimiters only; a value holds
-- no end of line, and its first byte is not a delimiter of names.
pub record IsHeader (name gap value : Bytes) : Type 0 where
  pub named : 0 < length name
  pub name_word : Avoids name_end name
  pub name_line : Avoids line_end name
  pub parted : 0 < length gap
  pub gap_delimits : IsDelimiting gap
  pub value_line : Avoids line_end value
  pub value_clear : Avoids name_end (take 1 value)

abbrev pub AreHeaders : Headers → Type 0
AreHeaders [] = Unit
AreHeaders ((name, gap, value) ∷ hs) = IsHeader name gap value × AreHeaders hs

pub word-Avoids :
    (bad s : Bytes) (c : ℕ) (rest : Bytes)
    → Avoids bad s
    → contains bad c ≡ true
    → word (s ++ c ∷ rest) bad ≡ s
word-Avoids bad [] c rest h k = rw k refl
word-Avoids bad (x ∷ s) c rest h k = rw h.0 (ap (◌∷◌ x) (word-Avoids bad s c rest h.1 k))

pub onward-Avoids :
    (bad s : Bytes) (c : ℕ) (rest : Bytes)
    → Avoids bad s
    → contains bad c ≡ true
    → drop_while (λ c. not (contains bad c)) (s ++ c ∷ rest) ≡ c ∷ rest
onward-Avoids bad [] c rest h k = rw k refl
onward-Avoids bad (x ∷ s) c rest h k = rw h.0 (onward-Avoids bad s c rest h.1 k)

-- A text whose first byte is no delimiter.
abbrev pub StartsClear : Bytes → Bytes → Type 0
StartsClear bad s = Avoids bad (take 1 s)

clear_kept : (bad s : Bytes) → StartsClear bad s → drop_while (λ c. contains bad c) s ≡ s
clear_kept bad [] h = refl
clear_kept bad (c ∷ s) h = rw h.0 refl

past_gap :
    (gap tail : Bytes)
    → IsDelimiting gap
    → StartsClear name_end tail
    → drop_while (λ c. contains name_end c) (gap ++ tail) ≡ tail
past_gap [] tail g k = clear_kept name_end tail k
past_gap (c ∷ gap) tail g k = rw g.0 (past_gap gap tail g.1 k)

pub skip_name :
    (name gap tail : Bytes)
    → Avoids name_end name
    → 0 < length gap
    → IsDelimiting gap
    → StartsClear name_end tail
    → skip (name ++ (gap ++ tail)) name_end ≡ (name, tail)
skip_name name [] tail h l g k = absurd (omega (arith, l))
skip_name name (c ∷ gap) tail h l g k =
    rw
      (
        word-Avoids name_end name c (gap ++ tail) h g.0,
        onward-Avoids name_end name c (gap ++ tail) h g.0,
        g.0,
        past_gap gap tail g.1 k,
      )
      refl

skip_value :
    (value tail : Bytes)
    → Avoids line_end value
    → StartsClear line_end tail
    → skip (value ++ b'\r' ∷ b'\n' ∷ tail) line_end ≡ (value, tail)
skip_value value tail h k =
    rw
      (
        word-Avoids line_end value b'\r' (b'\n' ∷ tail) h refl,
        onward-Avoids line_end value b'\r' (b'\n' ∷ tail) h refl,
        clear_kept line_end tail k,
      )
      refl

pub value-StartsClear :
    (value tail : Bytes)
    → Avoids name_end (take 1 value)
    → StartsClear name_end (value ++ b'\r' ∷ tail)
value-StartsClear [] tail h = (refl, tt)
value-StartsClear (c ∷ value) tail h = h

pub name-StartsClear :
    (name tail : Bytes)
    → 0 < length name
    → Avoids line_end name
    → StartsClear line_end (name ++ tail)
name-StartsClear [] tail h k = absurd (omega (arith, h))
name-StartsClear (c ∷ name) tail h k = (k.0, tt)

pub render-StartsClear : (hs : Headers) → AreHeaders hs → StartsClear line_end (render hs)
render-StartsClear [] h = tt
render-StartsClear ((name, gap, value) ∷ hs) h =
    name-StartsClear name (gap ++ (value ++ b'\r' ∷ b'\n' ∷ render hs)) h.0.named h.0.name_line

pub parse_loop_round :
    (buf name next value tail : Bytes) (left i num : ℕ) (headers : Entries)
    → skip buf name_end ≡ (name, next)
    → skip next line_end ≡ (value, tail)
    → (length name == 0) ≡ false
    → parse_loop (suc left) buf i headers num
      ≡ parse_loop left tail (suc i) (set headers i (some name, some value)) (suc i)
unfolding parse_loop
parse_loop_round buf name next value tail left i num headers a b e =
    rw
      (
        ap (λ (r : Bytes × Bytes). r.0) a,
        ap (λ (r : Bytes × Bytes). r.1) a,
        ap (λ (r : Bytes × Bytes). r.0) b,
        ap (λ (r : Bytes × Bytes). r.1) b,
        e,
      )
      refl

-- A header at the front of the text is stored, and the loop goes on behind its line.
pub parse_loop_stores :
    (name gap value tail : Bytes) (left i num : ℕ) (headers : Entries)
    → IsHeader name gap value
    → StartsClear line_end tail
    → parse_loop (suc left) (name ++ (gap ++ (value ++ b'\r' ∷ b'\n' ∷ tail))) i headers num
      ≡ parse_loop left tail (suc i) (set headers i (some name, some value)) (suc i)
parse_loop_stores name gap value tail left i num headers h d =
    let onward = value ++ b'\r' ∷ b'\n' ∷ tail in
    parse_loop_round (name ++ (gap ++ onward)) name onward value tail left i num headers
      (skip_name name gap onward h.name_word h.parted h.gap_delimits
        (value-StartsClear value (b'\n' ∷ tail) h.value_clear))
      (skip_value value tail h.value_line d) (ground (arith, h.named))
