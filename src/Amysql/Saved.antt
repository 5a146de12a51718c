-- ===== src/Amysql/Saved.antt =====
-- The loop of `query` that saves the fields of a row.
use libc_jss.Base.{
  ltb, ltb→lt, le_of_not_ltb, Bool-cases, length, length_snoc, Bytes, lengths, ℕ, ◌+◌, ◌≤◌, ◌≡◌,
  refl, sym, ap, subst, ◌∙◌, ◌⊎◌, inl, inr, Bool, true, false, Option, none, some, List, [], ◌∷◌,
  ◌++◌, append-nil, append_assoc, arith,
}
use libc_jss.Amysql.{Row, is_full, copy_field, save_fields}

abbrev pub Saved : Type 0
Saved = List (Option ℕ) × Bytes × Bool

abbrev pub fieldv_of : Saved → List (Option ℕ)
fieldv_of r = r.0

abbrev pub fieldbuf_of : Saved → Bytes
fieldbuf_of r = r.1

abbrev pub left_of : Saved → Bool
left_of r = r.2

-- The whole field is written and there is room, or the loop left with 8191 bytes written.
abbrev Copied : Bytes → Bytes → Bytes × Bool → Type 0
Copied s buf r =
    ((r.1 ≡ false) × ((r.0 ≡ buf ++ s) × (length r.0 ≤ 8190)))
    ⊎ ((r.1 ≡ true) × (length r.0 ≡ 8191))

module _ (c : ℕ) (s buf : Bytes) where
  copy_field_leaves :
      is_full (buf ++ c ∷ []) ≡ true → copy_field (c ∷ s) buf ≡ (buf ++ c ∷ [], true)
  unfolding copy_field
  copy_field_leaves e = rw e refl

  copy_field_goes_on :
      is_full (buf ++ c ∷ []) ≡ false → copy_field (c ∷ s) buf ≡ copy_field s (buf ++ c ∷ [])
  unfolding copy_field
  copy_field_goes_on e = rw e refl

Copied-next :
    (c : ℕ) (s buf : Bytes) (r : Bytes × Bool) → Copied s (buf ++ c ∷ []) r → Copied (c ∷ s) buf r
Copied-next c s buf r (inl (a, (b, d))) = inl (a, (b ∙ append_assoc buf (c ∷ []) s, d))
Copied-next c s buf r (inr h) = inr h

copy_field-Copied : (s buf : Bytes) → length buf ≤ 8190 → Copied s buf (copy_field s buf)
unfolding copy_field
copy_field-Copied [] buf h = inl (refl, (sym (append-nil buf), h))
copy_field-Copied (c ∷ s) buf h = elim (Bool-cases (is_full (buf ++ c ∷ []))) [
  | inl e ↦
      subst (Copied (c ∷ s) buf) (sym (copy_field_leaves c s buf e))
        (inr (refl, omega (arith, h, length_snoc buf c, ltb→lt 8190 (length (buf ++ c ∷ [])) e)))
  | inr e ↦ subst (Copied (c ∷ s) buf) (sym (copy_field_goes_on c s buf e)) (
      Copied-next c s buf (copy_field s (buf ++ c ∷ []))
        (copy_field-Copied s (buf ++ c ∷ []) (le_of_not_ltb 8190 (length (buf ++ c ∷ [])) e)))
]

-- The fields one behind the other, each with its closing 0.
abbrev pub packed : Row → Bytes
packed [] = []
packed (none ∷ row) = packed row
packed (some s ∷ row) = s ++ 0 ∷ packed row

-- Where each field starts, from `n` on.
abbrev pub offsets : ℕ → Row → List (Option ℕ)
offsets n [] = []
offsets n (none ∷ row) = none ∷ offsets n row
offsets n (some s ∷ row) = some n ∷ offsets (n + length s + 1) row

-- The bounds that hold in any case, and what is saved where the loop comes to its end.
abbrev pub IsSaved : Row → List (Option ℕ) → Bytes → Saved → Type 0
IsSaved row v buf r =
    (length (fieldv_of r) ≤ 32)
    × ((length (fieldbuf_of r) ≤ 8191)
        × ((left_of r ≡ false)
            → length v + length row ≤ 32
            → (fieldv_of r ≡ v ++ offsets (length buf) row) × (fieldbuf_of r ≡ buf ++ packed row)))

module _ (row : Row) (v : List (Option ℕ)) (buf : Bytes) where
  save_fields_stops :
      (f : Option Bytes) → ltb (length v) 32 ≡ false → save_fields (f ∷ row) v buf ≡ (v, buf, false)
  unfolding save_fields
  save_fields_stops none e = rw e refl
  save_fields_stops (some s) e = rw e refl

  save_fields_null :
      ltb (length v) 32 ≡ true
      → save_fields (none ∷ row) v buf ≡ save_fields row (v ++ none ∷ []) buf
  unfolding save_fields
  save_fields_null e = rw e refl

  module _ (s : Bytes) (room : ltb (length v) 32 ≡ true) where
    save_fields_cut :
        (copy_field s buf).1 ≡ true
        → save_fields (some s ∷ row) v buf
          ≡ (v ++ some (length buf) ∷ [], (copy_field s buf).0, true)
    unfolding save_fields
    save_fields_cut e = rw (room, e) refl

    save_fields_ended :
        (copy_field s buf).1 ≡ false
        → is_full ((copy_field s buf).0 ++ 0 ∷ []) ≡ true
        → save_fields (some s ∷ row) v buf
          ≡ (v ++ some (length buf) ∷ [], (copy_field s buf).0 ++ 0 ∷ [], true)
    unfolding save_fields
    save_fields_ended e k = rw (room, e, k) refl

    save_fields_next :
        (copy_field s buf).1 ≡ false
        → is_full ((copy_field s buf).0 ++ 0 ∷ []) ≡ false
        → save_fields (some s ∷ row) v buf
          ≡ save_fields row (v ++ some (length buf) ∷ []) ((copy_field s buf).0 ++ 0 ∷ [])
    unfolding save_fields
    save_fields_next e k = rw (room, e, k) refl

IsSaved-null :
    (row : Row) (v : List (Option ℕ)) (buf : Bytes) (r : Saved)
    → IsSaved row (v ++ none ∷ []) buf r
    → IsSaved (none ∷ row) v buf r
IsSaved-null row v buf r (a, (b, h)) = (
  a,
  (
    b,
    λ e l.
        let whole = h e (omega (arith, l, length_snoc v none)) in
        (whole.0 ∙ append_assoc v (none ∷ []) (offsets (length buf) row), whole.1),
  ),
)

IsSaved-next :
    (s : Bytes) (row : Row) (v : List (Option ℕ)) (buf copied : Bytes) (r : Saved)
    → copied ≡ buf ++ s
    → IsSaved row (v ++ some (length buf) ∷ []) (copied ++ 0 ∷ []) r
    → IsSaved (some s ∷ row) v buf r
IsSaved-next s row v buf copied r c (a, (b, h)) = (
  a,
  (
    b,
    λ e l.
        let whole = h e (omega (arith, l, length_snoc v (some (length buf)))) in
        (whole.0 ∙ v_eq, whole.1 ∙ buf_eq),
  ),
)
  where
    len : length (copied ++ 0 ∷ []) ≡ length buf + length s + 1
    len = omega (lengths, ap length c)

    v_eq :
        (v ++ some (length buf) ∷ []) ++ offsets (length (copied ++ 0 ∷ [])) row
        ≡ v ++ some (length buf) ∷ offsets (length buf + length s + 1) row
    v_eq =
        append_assoc v (some (length buf) ∷ []) (offsets (length (copied ++ 0 ∷ [])) row)
        ∙ ap (λ n. v ++ some (length buf) ∷ offsets n row) len

    buf_eq : (copied ++ 0 ∷ []) ++ packed row ≡ buf ++ (s ++ 0 ∷ packed row)
    buf_eq =
        append_assoc copied (0 ∷ []) (packed row)
        ∙ ap (λ b. b ++ 0 ∷ packed row) c
        ∙ append_assoc buf s (0 ∷ packed row)

module _ (s : Bytes) (row : Row) (v : List (Option ℕ)) (buf : Bytes) where
  abbrev pushed : List (Option ℕ)
  pushed = v ++ some (length buf) ∷ []

  save_some-IsSaved :
      ltb (length v) 32 ≡ true
      → Copied s buf (copy_field s buf)
      → ((b : Bytes) → length b ≤ 8190 → IsSaved row pushed b (save_fields row pushed b))
      → IsSaved (some s ∷ row) v buf (save_fields (some s ∷ row) v buf)
  save_some-IsSaved room (inr (e, n)) later =
      subst (IsSaved (some s ∷ row) v buf) (sym (save_fields_cut row v buf s room e)) (
        omega (arith, length_snoc v (some (length buf)), ltb→lt (length v) 32 room),
        (omega (arith, n), λ a l. absurd (ground (arith, a))),
      )
  save_some-IsSaved room (inl (e, (c, n))) later =
      let copied = (copy_field s buf).0 in
      elim (Bool-cases (is_full (copied ++ 0 ∷ []))) [
        | inl k ↦
            subst (IsSaved (some s ∷ row) v buf) (sym (save_fields_ended row v buf s room e k)) (
              omega (arith, length_snoc v (some (length buf)), ltb→lt (length v) 32 room),
              (omega (arith, n, length_snoc copied 0), λ a l. absurd (ground (arith, a))),
            )
        | inr k ↦
            subst (IsSaved (some s ∷ row) v buf) (sym (save_fields_next row v buf s room e k)) (
              IsSaved-next s row v buf copied (save_fields row pushed (copied ++ 0 ∷ [])) c
                (later (copied ++ 0 ∷ []) (le_of_not_ltb 8190 (length (copied ++ 0 ∷ [])) k)))
      ]

stopped-IsSaved :
    (f : Option Bytes) (row : Row) (v : List (Option ℕ)) (buf : Bytes)
    → length v ≤ 32
    → length buf ≤ 8190
    → ltb (length v) 32 ≡ false
    → IsSaved (f ∷ row) v buf (v, buf, false)
stopped-IsSaved f row v buf h k e =
    (h, (omega (arith, k), λ a l. absurd (omega (arith, l, le_of_not_ltb (length v) 32 e))))

pub save_fields-IsSaved :
    (row : Row) (v : List (Option ℕ)) (buf : Bytes)
    → length v ≤ 32
    → length buf ≤ 8190
    → IsSaved row v buf (save_fields row v buf)
unfolding save_fields
save_fields-IsSaved [] v buf h k =
    (h, (omega (arith, k), λ e l. (sym (append-nil v), sym (append-nil buf))))
save_fields-IsSaved (none ∷ row) v buf h k = elim (Bool-cases (ltb (length v) 32)) [
  | inr e ↦
      subst (IsSaved (none ∷ row) v buf) (sym (save_fields_stops row v buf none e))
        (stopped-IsSaved none row v buf h k e)
  | inl e ↦ subst (IsSaved (none ∷ row) v buf) (sym (save_fields_null row v buf e)) (
      IsSaved-null row v buf (save_fields row (v ++ none ∷ []) buf) (
        save_fields-IsSaved row (v ++ none ∷ []) buf
          (omega (arith, length_snoc v none, ltb→lt (length v) 32 e)) k))
]
save_fields-IsSaved (some s ∷ row) v buf h k = elim (Bool-cases (ltb (length v) 32)) [
  | inr e ↦
      subst (IsSaved (some s ∷ row) v buf) (sym (save_fields_stops row v buf (some s) e))
        (stopped-IsSaved (some s) row v buf h k e)
  | inl e ↦ save_some-IsSaved s row v buf e (copy_field-Copied s buf k) λ b kb.
      save_fields-IsSaved row (v ++ some (length buf) ∷ []) b
        (omega (arith, length_snoc v (some (length buf)), ltb→lt (length v) 32 e)) kb
]
