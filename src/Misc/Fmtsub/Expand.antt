-- ===== src/Misc/Fmtsub/Expand.antt =====
-- The expansion of a pattern, and the buffer of `fmtsub`.
use libc_jss.Base.{
  Option-cases, length, take, drop, take_all, take-append_left, take_middle, Bytes, starts_with,
  lengths, ℕ, zero, suc, ◌+◌, ◌-◌, ◌≤◌, ◌<◌, min, ◌≡◌, refl, sym, ap, ap₂, ◌∙◌, ◌⊎◌, inl, inr, true,
  Option, none, some, [], ◌∷◌, ◌++◌, append-nil, append_assoc, arith,
}
use libc_jss.Misc.Fmtsub.{
  Args, last_byte, first_match, Sub, fmtsub_round, fmtsub_loop, start, expand, copy_byte, add_value,
  value_length,
}

abbrev pub value : Option Bytes → Bytes
value none = []
value (some exp) = exp

-- The expansion of a text by a table: at each place the first row that fits, or else the byte.
pub data Expands (args : Args) : Bytes → Bytes → Type 0 where
  done : Expands args [] []
  variable :
      {var text out : Bytes} {exp : Option Bytes}
      → first_match text args ≡ some (var, exp)
      → Expands args (drop (length var) text) out
      → Expands args text (value exp ++ out)
  byte :
      {c : ℕ} {text out : Bytes}
      → first_match (c ∷ text) args ≡ none
      → Expands args text out
      → Expands args (c ∷ text) (c ∷ out)

-- A row that is found has a variable, and the variable stands there.
pub first_match_lem :
    (text : Bytes) (args : Args) (var : Bytes) (exp : Option Bytes)
    → first_match text args ≡ some (var, exp)
    → (0 < length var) × (starts_with text var ≡ true)
first_match_lem text [] var exp e = cc
first_match_lem text ((v, x) ∷ args) var exp e = ground (arith, first_match_lem text args var exp)

starts_with-length : (text var : Bytes) → starts_with text var ≡ true → length var ≤ length text
starts_with-length text [] e = omega arith
starts_with-length [] (y ∷ var) e = cc
starts_with-length (x ∷ text) (y ∷ var) e = ground (arith, starts_with-length text var)

abbrev at : Bytes → Bytes → ℕ → Sub
at text buf pos = record { subpat = text; buf = buf; posbuf = pos }

module _ (args : Args) where
  loop_end :
      (fuel : ℕ) (buf : Bytes) (pos : ℕ) → fmtsub_loop fuel args (at [] buf pos) ≡ at [] buf pos
  unfolding fmtsub_loop
  loop_end zero buf pos = refl
  loop_end (suc fuel) buf pos = refl

  loop_full : (fuel : ℕ) (s : Sub) → s.posbuf ≡ last_byte → fmtsub_loop fuel args s ≡ s
  unfolding fmtsub_loop
  loop_full zero s e = refl
  loop_full (suc fuel) s e = ground arith

  loop_step :
      (fuel : ℕ) (s : Sub)
      → 0 < length s.subpat
      → s.posbuf < last_byte
      → fmtsub_loop (suc fuel) args s ≡ fmtsub_loop fuel args (fmtsub_round args s)
  unfolding fmtsub_loop
  loop_step fuel s h k = ground arith

  pub round_byte : (s : Sub) → first_match s.subpat args ≡ none → fmtsub_round args s ≡ copy_byte s
  unfolding fmtsub_round
  round_byte s e = rw (e, fmtsub_round)

  pub round_variable :
      (s : Sub) (var : Bytes) (exp : Option Bytes)
      → first_match s.subpat args ≡ some (var, exp)
      → fmtsub_round args s ≡ expand s var exp
  unfolding fmtsub_round
  round_variable s var exp e = rw (e, fmtsub_round)

-- Behind a sound buffer, the state of the two kinds of round.
copy_byte_lem :
    (c : ℕ) (text buf : Bytes) (pos : ℕ)
    → pos ≡ length buf
    → copy_byte (record { subpat = c ∷ text; buf = buf; posbuf = pos })
      ≡ record { subpat = text; buf = buf ++ c ∷ []; posbuf = length (buf ++ c ∷ []) }
unfolding copy_byte
copy_byte_lem c text buf pos e =
    let next : pos + 1 ≡ length (buf ++ c ∷ []) = omega lengths in
    rw (take_all pos buf (omega arith), next)

abbrev filled : Bytes → Bytes → Bytes
filled buf exp = buf ++ take (last_byte - length buf) exp

length-filled :
    (buf exp : Bytes)
    → length buf ≤ last_byte
    → length (filled buf exp) ≡ min (length buf + length exp) last_byte
length-filled buf exp h = omega lengths

add_value-filled :
    (exp : Option Bytes) (buf : Bytes) (pos : ℕ)
    → pos ≡ length buf
    → add_value exp buf pos ≡ filled buf (value exp)
unfolding add_value
add_value-filled none buf pos e =
    rw (take_all {A = ℕ} (last_byte - length buf) [] (omega arith)) (sym (append-nil buf))
add_value-filled (some exp) buf pos e = rw e

length-value : (exp : Option Bytes) → value_length exp ≡ length (value exp)
unfolding value_length
length-value none = refl
length-value (some exp) = refl

expand_lem :
    (text buf var : Bytes) (exp : Option Bytes) (pos : ℕ)
    → pos ≡ length buf
    → pos ≤ last_byte
    → expand (at text buf pos) var exp
      ≡ at (drop (length var) text) (filled buf (value exp)) (length (filled buf (value exp)))
unfolding expand
expand_lem text buf var exp pos e h =
    ap₂ (at (drop (length var) text)) (add_value-filled exp buf pos e)
      (ground (arith, length-value exp, length-filled buf (value exp)))

lt_or_eq : (m n : ℕ) → m ≤ n → (m < n) ⊎ (m ≡ n)
lt_or_eq m n h = ground arith

full_buffer :
    (args : Args) (fuel : ℕ) (text buf : Bytes) (pos : ℕ) (out : Bytes)
    → pos ≡ length buf
    → pos ≡ last_byte
    → let r = fmtsub_loop fuel args (at text buf pos) in
      take r.posbuf r.buf ≡ take last_byte (buf ++ out)
full_buffer args fuel text buf pos out e h =
    rw (loop_full args fuel (at text buf pos) h)
      (ap (λ (n : ℕ). take n buf) h ∙ sym (take-append_left last_byte buf out (omega arith)))

-- From a sound buffer the loop appends the expansion, cut at the buffer's size, and at its end
-- `posbuf` is the length of the string.
fmtsub_loop_lem :
    (args : Args) (fuel : ℕ) (text buf : Bytes) (pos : ℕ) (out : Bytes)
    → length text ≤ fuel
    → pos ≡ length buf
    → pos ≤ last_byte
    → Expands args text out
    → let r = fmtsub_loop fuel args (at text buf pos) in
      take r.posbuf r.buf ≡ take last_byte (buf ++ out)
fmtsub_loop_lem args fuel text buf pos out f e h done =
    rw (loop_end args fuel buf pos, append-nil buf)
      (take_all pos buf (omega arith) ∙ sym (take_all last_byte buf (omega arith)))
fmtsub_loop_lem args zero text buf pos out f e h (byte m x) = absurd (omega arith)
fmtsub_loop_lem args (suc fuel) text buf pos out f e h (byte {c} {text = t} {out = o} m x) =
    elim (lt_or_eq pos last_byte h) [
      | inr full ↦ full_buffer args (suc fuel) (c ∷ t) buf pos (c ∷ o) e full
      | inl more ↦
          let next = round_byte args (at (c ∷ t) buf pos) m ∙ copy_byte_lem c t buf pos e in
          let ih =
            fmtsub_loop_lem args fuel t (buf ++ c ∷ []) (length (buf ++ c ∷ [])) o (omega arith)
              refl (omega lengths) x in
          rw (loop_step args fuel (at (c ∷ t) buf pos) (omega arith) more, next)
            (ih ∙ ap (take last_byte) (append_assoc buf (c ∷ []) o))
    ]
fmtsub_loop_lem args zero text buf pos out f e h (variable {var} {text = t} {exp} m x) =
    let found = first_match_lem t args var exp m in
    absurd (omega (arith, starts_with-length t var found.1))
fmtsub_loop_lem args (suc fuel) text buf pos out f e h
      (variable {var} {text = t} {out = o} {exp} m x) =
    elim (lt_or_eq pos last_byte h) [
      | inr full ↦ full_buffer args (suc fuel) t buf pos (value exp ++ o) e full
      | inl more ↦
          let v = value exp in
          let found = first_match_lem t args var exp m in
          let fits = starts_with-length t var found.1 in
          let next =
            round_variable args (at t buf pos) var exp m ∙ expand_lem t buf var exp pos e h in
          let ih =
            fmtsub_loop_lem args fuel (drop (length var) t) (filled buf v) (length (filled buf v)) o
              (omega lengths) refl (omega (arith, length-filled buf v)) x in
          rw (loop_step args fuel (at t buf pos) (omega arith) more, next)
            (ih ∙ take_middle last_byte buf v o (omega arith))
    ]

-- Every text has an expansion.
Expands-total :
    (args : Args) (fuel : ℕ) (text : Bytes)
    → length text ≤ fuel
    → (out : Bytes) × Expands args text out
Expands-total args fuel [] f = ([], done)
Expands-total args zero (c ∷ t) f = absurd (omega arith)
Expands-total args (suc fuel) (c ∷ t) f = elim (Option-cases (first_match (c ∷ t) args)) [
  | inl m ↦ let (out, x) = Expands-total args fuel t (omega arith) in (c ∷ out, byte m x)
  | inr ((var, exp), m) ↦
      let found = first_match_lem (c ∷ t) args var exp m in
      let (out, x) = Expands-total args fuel (drop (length var) (c ∷ t)) (omega lengths) in
      (value exp ++ out, variable m x)
]

pub expansion : (args : Args) (text : Bytes) → (out : Bytes) × Expands args text out
expansion args text = Expands-total args (length text) text (omega arith)

pub fmtsub_loop-start :
    (args : Args) (pattern out : Bytes)
    → Expands args pattern out
    → let r = fmtsub_loop (length pattern) args (start pattern) in
      take r.posbuf r.buf ≡ take last_byte out
fmtsub_loop-start args pattern out x =
    fmtsub_loop_lem args (length pattern) pattern [] 0 out (omega arith) refl (omega arith) x
