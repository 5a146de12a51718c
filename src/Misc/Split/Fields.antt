-- ===== src/Misc/Split/Fields.antt =====
-- The pieces of `split`, and the room for their pointers.
use libc_jss.Base.{
  ◌==◌, if◌then◌else◌, ==_iff, Bool-cases, length, drop, Bytes, cstr, IsText, contains, lengths, ℕ,
  zero, suc, ◌+◌, ◌≤◌, ◌≡◌, refl, ap, ap₂, ◌∙◌, ◌≢◌, ◌⊎◌, inl, inr, Bool, true, false, not, ◌&&◌,
  List, [], ◌∷◌, ◌++◌, map, append_assoc, arith,
}
use libc_jss.Misc.Split.{count_delims, split_loop, split, strings}

-- Pointers and delimiters.
count_delims_lem :
    (d : ℕ) (fresh : Bool) (i : ℕ) (buf : Bytes) (c : ℕ)
    → length (split_loop d fresh i buf).0 + c ≤ count_delims d buf c + (if fresh then 1 else 0)
unfolding split_loop count_delims
count_delims_lem d fresh i [] c = omega arith
count_delims_lem d true i (x ∷ buf) c =
    ground
      (arith, count_delims_lem d false (suc i) buf c, count_delims_lem d false (suc i) buf (c + 1))
count_delims_lem d false i (x ∷ buf) c =
    ground
      (arith, count_delims_lem d false (suc i) buf c, count_delims_lem d true (suc i) buf (c + 1))

-- The pointers and the closing `NULL` fit into the array, whatever the buffer holds.
split_fits : (buf : Bytes) (d : ℕ) → length (split buf d).pointers + 1 ≤ (split buf d).room
unfolding split split_loop
split_fits [] d = omega arith
split_fits (x ∷ buf) d = ground (arith, count_delims_lem d true 0 (x ∷ buf) 0)

-- The reference: what is left of the field that a text starts in, and the fields behind it. The
-- first byte of a field belongs to it whatever it is.
abbrev fields_from : ℕ → Bool → Bytes → Bytes × List Bytes
fields_from d fresh [] = ([], [])
fields_from d true (c ∷ s) = let (f, fs) = fields_from d false s in ([], (c ∷ f) ∷ fs)
fields_from d false (c ∷ s) =
    let (f, fs) = fields_from d (c == d) s in if c == d then ([], fs) else (c ∷ f, fs)

abbrev pub fields : ℕ → Bytes → List Bytes
fields d s = (fields_from d true s).1

drop-append : (xs ys : Bytes) (n : ℕ) → n ≡ length xs → drop n (xs ++ ys) ≡ ys
drop-append [] ys zero e = refl
drop-append [] ys (suc n) e = absurd (omega arith)
drop-append (x ∷ xs) ys zero e = absurd (omega arith)
drop-append (x ∷ xs) ys (suc n) e = drop-append xs ys n (omega arith)

split_loop_end :
    (d : ℕ) (fresh : Bool) (i : ℕ) (rest : Bytes) → split_loop d fresh i (0 ∷ rest) ≡ ([], 0 ∷ rest)
unfolding split_loop
split_loop_end d fresh i rest = refl

split_loop_step :
    (d : ℕ) (fresh : Bool) (i c : ℕ) (buf : Bytes)
    → c ≢ 0
    → let ends = not fresh && c == d in
      let r = split_loop d ends (suc i) buf in
      split_loop d fresh i (c ∷ buf)
      ≡ (if fresh then i ∷ r.0 else r.0, (if ends then 0 else c) ∷ r.1)
unfolding split_loop
split_loop_step d fresh i c buf h = ground arith

cstr_next : (c : ℕ) (s t : Bytes) → c ≢ 0 → cstr s ≡ t → cstr (c ∷ s) ≡ c ∷ t
cstr_next c s t h e = ground arith

-- Read behind any `i` bytes, the loop's pointers give the fields.
split_loop_lem :
    (d : ℕ) (fresh : Bool) (i : ℕ) (s rest pre : Bytes)
    → IsText s
    → i ≡ length pre
    → let r = split_loop d fresh i (s ++ 0 ∷ rest) in
      (map (λ p. cstr (drop p (pre ++ r.1))) r.0 ≡ (fields_from d fresh s).1)
      × (fresh ≡ false → cstr r.1 ≡ (fields_from d fresh s).0)
split_loop_lem d fresh i [] rest pre h e = rw (split_loop_end d fresh i rest) (refl, λ _. refl)
split_loop_lem d true i (c ∷ s) rest pre h e =
    let r = split_loop d false (suc i) (s ++ 0 ∷ rest) in
    let ih = split_loop_lem d false (suc i) s rest (pre ++ c ∷ []) h.1 (omega lengths) in
    let first =
      ap cstr (drop-append pre (c ∷ r.1) i e)
      ∙ cstr_next c r.1 (fields_from d false s).0 h.0 (ih.1 refl) in
    rw (split_loop_step d true i c (s ++ 0 ∷ rest) h.0)
      (ap₂ (◌∷◌) first (rw (append_assoc pre (c ∷ []) r.1) at ih.0), λ b. cc)
split_loop_lem d false i (c ∷ s) rest pre h e = elim (Bool-cases (c == d)) [
  | inl b ↦
      let ih = split_loop_lem d true (suc i) s rest (pre ++ 0 ∷ []) h.1 (omega lengths) in
      rw (split_loop_step d false i c (s ++ 0 ∷ rest) h.0, b)
        (rw (append_assoc pre (0 ∷ []) _) at ih.0, λ _. refl)
  | inr b ↦
      let r = split_loop d false (suc i) (s ++ 0 ∷ rest) in
      let ih = split_loop_lem d false (suc i) s rest (pre ++ c ∷ []) h.1 (omega lengths) in
      rw (split_loop_step d false i c (s ++ 0 ∷ rest) h.0, b)
        (
          rw (append_assoc pre (c ∷ []) _) at ih.0,
          λ _. cstr_next c r.1 (fields_from d false s).0 h.0 (ih.1 refl),
        )
]

-- The strings at the pointers of `split` are the fields of the string in the buffer.
strings-split : (s rest : Bytes) (d : ℕ) → IsText s → strings (split (s ++ 0 ∷ rest) d) ≡ fields d s
unfolding split
strings-split s rest d h = (split_loop_lem d true 0 s rest [] h refl).0

-- The fields, each with a delimiter behind it.
abbrev pub terminated : ℕ → List Bytes → Bytes
terminated d [] = []
terminated d (f ∷ fs) = f ++ d ∷ terminated d fs

abbrev pub IsField : ℕ → Bytes → Type 0
IsField d [] = ⊥
IsField d (c ∷ f) = contains f d ≡ false

abbrev pub AllFields : ℕ → List Bytes → Type 0
AllFields d [] = Unit {0}
AllFields d (f ∷ fs) = IsField d f × AllFields d fs

abbrev joined_from : ℕ → Bool → Bytes × List Bytes → Bytes
joined_from d true r = terminated d r.1
joined_from d false r = r.0 ++ d ∷ terminated d r.1

-- The text comes back up to one delimiter at its end.
abbrev pub Rejoins : ℕ → Bytes → Bytes → Type 0
Rejoins d joined s = (joined ≡ s) ⊎ (joined ≡ s ++ d ∷ [])

Rejoins-cons : (d c : ℕ) (t s : Bytes) → Rejoins d t s → Rejoins d (c ∷ t) (c ∷ s)
Rejoins-cons d c t s (inl e) = inl (ap (◌∷◌ c) e)
Rejoins-cons d c t s (inr e) = inr (ap (◌∷◌ c) e)

fields_from-Rejoins :
    (d : ℕ) (fresh : Bool) (s : Bytes) → Rejoins d (joined_from d fresh (fields_from d fresh s)) s
fields_from-Rejoins d true [] = inl refl
fields_from-Rejoins d false [] = inr refl
fields_from-Rejoins d true (c ∷ s) = Rejoins-cons d c _ s (fields_from-Rejoins d false s)
fields_from-Rejoins d false (c ∷ s) = elim (Bool-cases (c == d)) [
  | inl b ↦
      let same : c ≡ d = (==_iff c d).0 b in
      rw (b, same) (Rejoins-cons d d _ s (fields_from-Rejoins d true s))
  | inr b ↦ rw b (Rejoins-cons d c _ s (fields_from-Rejoins d false s))
]

fields_from-AllFields :
    (d : ℕ) (fresh : Bool) (s : Bytes)
    → (contains (fields_from d fresh s).0 d ≡ false) × AllFields d (fields_from d fresh s).1
fields_from-AllFields d fresh [] = (refl, tt)
fields_from-AllFields d true (c ∷ s) = (refl, fields_from-AllFields d false s)
fields_from-AllFields d false (c ∷ s) =
    ground (arith, fields_from-AllFields d true s, fields_from-AllFields d false s)

-- `split` cuts the string into non-empty pieces that hold no delimiter behind their first byte, and
-- the pieces, each with a delimiter behind it, give the string back, up to one delimiter at the end.
-- The pointers and the closing `NULL` fit into the array that `split_get_size` counts.
pub split_lem :
    (s rest : Bytes) (d : ℕ)
    → IsText s
    → let pieces = strings (split (s ++ 0 ∷ rest) d) in
      let r = split (s ++ 0 ∷ rest) d in
      AllFields d pieces × Rejoins d (terminated d pieces) s × (length r.pointers + 1 ≤ r.room)
split_lem s rest d h =
    rw (strings-split s rest d h) (
      (fields_from-AllFields d true s).1,
      fields_from-Rejoins d true s,
      split_fits (s ++ 0 ∷ rest) d,
    )
