-- ===== src/Misc/Strip/Front.antt =====
-- The loops of `_trim` at the front of the string, and the whole of `_trim`.
use libc_jss.Base.{
  ltb, if◌then◌else◌, ltb→lt, le_of_not_ltb, Bool-cases, length, get_or, set, drop, replicate,
  take_while, drop_while, take_while-append-drop_while, length-drop_while-le, set-append,
  nil_of_length, length_snoc, get_or-drop, drop_next, get_or_behind, Bytes, IsText, strlen_text, ℕ,
  zero, suc, ◌+◌, ◌-◌, ◌≤◌, ◌<◌, ◌≡◌, refl, sym, ap, ap₂, ◌∙◌, inl, inr, Bool, true, false, some,
  [], ◌∷◌, ◌++◌, append_assoc, arith, lengths,
}
use libc_jss.Misc.Strip.{is_blank, first_kept, shift_left, fill_zero, trim_left, trim_right, trim}
use libc_jss.Misc.Strip.Back.{strip_end, clear_back-strip_end, length-strip_end-le}

first_kept_lem :
    (u zs s : Bytes) (n : ℕ)
    → drop n s ≡ u ++ zs
    → first_kept (length u) s n + length (drop_while is_blank u) ≡ n + length u
unfolding first_kept
first_kept_lem [] zs s n e = omega arith
first_kept_lem (c ∷ u) zs s n e =
    let at_n : get_or s n 0 ≡ c = get_or-drop n s 0 ∙ ap (λ (l : Bytes). get_or l 0 0) e in
    ground (arith, first_kept_lem u zs s (suc n) (drop_next n s e))

shift_left_lem :
    (todo kept gap zs : Bytes) (i n : ℕ)
    → length gap ≡ n
    → 0 < n
    → i ≡ length kept + n
    → (junk : Bytes) × (length junk ≡ n)
      × (shift_left (length todo) (kept ++ (gap ++ (todo ++ zs))) i n
          ≡ kept ++ (todo ++ (junk ++ zs)))
unfolding shift_left
shift_left_lem [] kept gap zs i n g h e = (gap, g, refl)
shift_left_lem (c ∷ todo) kept [] zs i n g h e = absurd (omega arith)
shift_left_lem (c ∷ todo) kept (x ∷ gap) zs i n g h e =
    let here : get_or (kept ++ x ∷ (gap ++ c ∷ (todo ++ zs))) i 0 ≡ c =
      get_or_behind kept (x ∷ gap) c (todo ++ zs) i 0 (omega arith) in
    let back : i - n ≡ length kept = omega arith in
    let moved : set (kept ++ x ∷ (gap ++ c ∷ (todo ++ zs))) (length kept) c
        ≡ (kept ++ c ∷ []) ++ ((gap ++ c ∷ []) ++ (todo ++ zs)) =
      set-append kept x (gap ++ c ∷ (todo ++ zs)) c
      ∙ rw (append_assoc gap (c ∷ []) (todo ++ zs), append_assoc kept (c ∷ []) _) in
    let buf = kept ++ x ∷ (gap ++ c ∷ (todo ++ zs)) in
    let step =
      ap (λ (b : Bytes). shift_left (length todo) b (suc i) n) (ap₂ (set buf) back here ∙ moved) in
    let (junk, m, ih) =
      shift_left_lem todo (kept ++ c ∷ []) (gap ++ c ∷ []) zs (suc i) n (omega lengths) h
        (omega lengths) in
    (junk, m, step ∙ ih ∙ append_assoc kept (c ∷ []) (todo ++ (junk ++ zs)))

fill_zero_lem :
    (gap kept zs : Bytes)
    → fill_zero (length gap) (kept ++ (gap ++ zs)) (length kept)
      ≡ kept ++ (replicate (length gap) 0 ++ zs)
unfolding fill_zero
fill_zero_lem [] kept zs = refl
fill_zero_lem (x ∷ gap) kept zs =
    ap₂ (λ b i. fill_zero (length gap) b i)
      (set-append kept x (gap ++ zs) 0 ∙ sym (append_assoc kept (0 ∷ []) (gap ++ zs)))
      (sym (length_snoc kept 0))
    ∙ fill_zero_lem gap (kept ++ 0 ∷ []) zs
    ∙ append_assoc kept (0 ∷ []) (replicate (length gap) 0 ++ zs)

-- The two loops move `kept` to the front and clear what it leaves behind.
moved_to_front :
    (gap kept zs : Bytes) (n : ℕ)
    → length gap ≡ n
    → 0 < n
    → fill_zero n (shift_left (length kept) ((gap ++ kept) ++ zs) n n) (length kept)
      ≡ kept ++ (replicate n 0 ++ zs)
moved_to_front gap kept zs n g h =
    let (junk, m, e) = shift_left_lem kept [] gap zs n n g h (omega arith) in
    rw (append_assoc gap kept zs, e) (rw m at (fill_zero_lem junk kept zs))

trim_left_lem :
    (u zs : Bytes)
    → trim_left (u ++ zs) (length u)
      ≡ drop_while is_blank u ++ (replicate (length u - length (drop_while is_blank u)) 0 ++ zs)
unfolding trim_left
trim_left_lem u zs = elim (Bool-cases (ltb 0 n)) [
  | inl e ↦ rw e (
      ap₂ (λ k b. fill_zero n (shift_left k (b ++ zs) n n) k) rest (sym split)
      ∙ moved_to_front gap kept zs n long (ltb→lt 0 n e)
      ∙ rw blanks)
  | inr e ↦ rw e (ap (λ (b : Bytes). b ++ zs) (sym (same e)) ∙ rw (no_blanks e))
]
  where
    n : ℕ
    n = first_kept (length u) (u ++ zs) 0

    gap : Bytes
    gap = take_while is_blank u

    kept : Bytes
    kept = drop_while is_blank u

    split : gap ++ kept ≡ u
    split = take_while-append-drop_while is_blank u

    total : n + length kept ≡ length u
    total = omega (arith, first_kept_lem u zs (u ++ zs) 0 refl)

    long : length gap ≡ n
    long = omega (lengths, ap length split, total)

    rest : length u - n ≡ length kept
    rest = omega (arith, total)

    blanks : n ≡ length u - length kept
    blanks = omega (arith, total)

    same : ltb 0 n ≡ false → kept ≡ u
    same e =
        let empty = nil_of_length gap (omega (arith, long, le_of_not_ltb 0 n e)) in
        sym (ap (λ (b : Bytes). b ++ kept) empty) ∙ split

    no_blanks : ltb 0 n ≡ false → length u - length kept ≡ 0
    no_blanks e = omega (arith, total, le_of_not_ltb 0 n e)

replicate-append :
    (m n k : ℕ) (zs : Bytes)
    → m + n ≡ k
    → replicate m 0 ++ (replicate n 0 ++ zs) ≡ replicate k 0 ++ zs
replicate-append zero n k zs h = let e : n ≡ k = omega arith in rw e
replicate-append (suc m) n zero zs h = absurd (omega arith)
replicate-append (suc m) n (suc k) zs h = ap (◌∷◌ 0) (replicate-append m n k zs (omega arith))

-- The string that `_trim` leaves.
abbrev pub trimmed : Bytes → Bool → Bool → Bytes
trimmed s left right =
    let t = if right then strip_end is_blank s else s in if left then drop_while is_blank t else t

trim_right_lem :
    (s rest : Bytes)
    → IsText s
    → (right : Bool)
    → let t = trimmed s false right in
      trim_right right (s ++ 0 ∷ rest)
      ≡ (t ++ (replicate (length s - length t) 0 ++ 0 ∷ rest), length t)
unfolding trim_right
trim_right_lem s rest h true =
    rw (strlen_text s rest h) (clear_back-strip_end is_blank s (0 ∷ rest))
trim_right_lem s rest h false =
    let z : length s - length s ≡ 0 = omega arith in rw (strlen_text s rest h, z)

length-trimmed-le : (s : Bytes) (right : Bool) → length (trimmed s false right) ≤ length s
length-trimmed-le s true = length-strip_end-le is_blank s
length-trimmed-le s false = omega arith

-- `_trim` cuts blanks and tabs off the ends asked for: the string moves to the front of the
-- buffer, the bytes behind it up to the old end are 0, and no other byte changes.
pub trim_lem :
    (s rest : Bytes) (left right : Bool)
    → IsText s
    → trim (some (s ++ 0 ∷ rest)) left right
      ≡ some (
          trimmed s left right
          ++ (replicate (length s - length (trimmed s left right)) 0 ++ 0 ∷ rest))
unfolding trim
trim_lem s rest true right h =
    let t = trimmed s false right in
    let d = drop_while is_blank t in
    let shorter : length t ≤ length s = length-trimmed-le s right in
    let counts : (length t - length d) + (length s - length t) ≡ length s - length d =
      omega (arith, length-drop_while-le is_blank t) in
    rw (trim_right_lem s rest h right) (
      ap some (
        trim_left_lem t (replicate (length s - length t) 0 ++ 0 ∷ rest)
        ∙ ap (◌++◌ d) (replicate-append _ _ _ (0 ∷ rest) counts)))
trim_lem s rest false right h = rw (trim_right_lem s rest h right)
