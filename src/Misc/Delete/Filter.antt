-- ===== src/Misc/Delete/Filter.antt =====
-- The result of `strdelchars` as a filter.
use libc_jss.Base.{
  ◌==◌, if◌then◌else◌, Bool-cases, length, get_or, set, drop, keep_if, set-append, length_snoc,
  get_or-drop, drop_next, get_or_behind, Bytes, cstr, strlen, IsText, contains, strlen_text,
  cstr_front, ℕ, zero, suc, ◌+◌, ◌≡◌, refl, sym, ap, ◌∙◌, inl, inr, Bool, true, false, not, ◌||◌,
  some, [], ◌∷◌, ◌++◌, append_assoc, arith, lengths,
}
use libc_jss.Misc.Delete.{search_dels, delete_loop, strdelchars}

abbrev pub is_kept : Bytes → ℕ → Bool
is_kept dels c = not (contains (cstr dels) c)

-- The inner loop runs to its end exactly if the byte is kept.
search_dels_lem :
    (t zs dels : Bytes) (c j n : ℕ)
    → drop j dels ≡ t ++ zs
    → n ≡ j + length t
    → (search_dels (length t) c dels j == n) ≡ not (contains t c)
unfolding search_dels
search_dels_lem [] zs dels c j n e m = ground arith
search_dels_lem (x ∷ t) zs dels c j n e m =
    let at_j : get_or dels j 0 ≡ x = get_or-drop j dels 0 ∙ ap (λ (l : Bytes). get_or l 0 0) e in
    ground (arith, search_dels_lem t zs dels c (suc j) n (drop_next j dels e))

is_kept_lem :
    (dels : Bytes) (c : ℕ) → (search_dels (strlen dels) c dels 0 == strlen dels) ≡ is_kept dels c
is_kept_lem dels c =
    let (rest, split) = cstr_front dels in
    search_dels_lem (cstr dels) rest dels c 0 (strlen dels) split (omega arith)

-- Copying down the byte behind the gap moves the gap on by one.
copy_down :
    (kept gap : Bytes) (c : ℕ) (rest : Bytes)
    → (gap' : Bytes) × (length gap' ≡ length gap)
      × (set (kept ++ (gap ++ c ∷ rest)) (length kept) c ≡ (kept ++ c ∷ []) ++ (gap' ++ rest))
copy_down kept [] c rest =
    ([], refl, set-append kept c rest c ∙ sym (append_assoc kept (c ∷ []) rest))
copy_down kept (x ∷ gap) c rest = (
  gap ++ c ∷ [],
  length_snoc gap c,
  set-append kept x (gap ++ c ∷ rest) c
      ∙ rw (append_assoc gap (c ∷ []) rest, append_assoc kept (c ∷ []) _),
)

delete_step :
    (dels : Bytes) (r : ℕ) (str : Bytes) (i k c : ℕ)
    → get_or str i 0 ≡ c
    → delete_loop (suc r) dels str i k ≡ (
        if is_kept dels c
        then delete_loop r dels (set str k c) (suc i) (suc k)
        else delete_loop r dels str (suc i) k)
unfolding delete_loop
delete_step dels r str i k c e = rw (e, is_kept_lem dels c)

module _ (dels : Bytes) (r : ℕ) (str str' : Bytes) (i k c : ℕ) where
  delete_copy :
      is_kept dels c ≡ true
      → get_or str i 0 ≡ c
      → set str k c ≡ str'
      → delete_loop (suc r) dels str i k ≡ delete_loop r dels str' (suc i) (suc k)
  delete_copy b e s = rw (delete_step dels r str i k c e, b, s)

  delete_skip :
      is_kept dels c ≡ false
      → get_or str i 0 ≡ c
      → str ≡ str'
      → delete_loop (suc r) dels str i k ≡ delete_loop r dels str' (suc i) k
  delete_skip b e s = rw (delete_step dels r str i k c e, b, s)

delete_end : (dels str : Bytes) (i k n : ℕ) → k ≡ n → delete_loop zero dels str i k ≡ (str, n)
unfolding delete_loop
delete_end dels str i k n e = rw e

-- What the loop leaves: the kept bytes in front, some bytes that do not matter, and the rest of
-- the buffer as it was.
delete_loop_lem :
    (dels todo kept gap zs : Bytes) (i k n : ℕ)
    → i ≡ length kept + length gap
    → k ≡ length kept
    → n ≡ k + length (keep_if (is_kept dels) todo)
    → (junk : Bytes) × (length junk + length (keep_if (is_kept dels) todo)
        ≡ length gap + length todo)
      × (delete_loop (length todo) dels (kept ++ (gap ++ (todo ++ zs))) i k
          ≡ (kept ++ (keep_if (is_kept dels) todo ++ (junk ++ zs)), n))
delete_loop_lem dels [] kept gap zs i k n e f g =
    (gap, omega arith, delete_end dels _ i k n (omega arith))
delete_loop_lem dels (c ∷ todo) kept gap zs i k n e f g = elim (Bool-cases (is_kept dels c)) [
  | inl b ↦
      let kept_now : keep_if (is_kept dels) (c ∷ todo) ≡ c ∷ keep_if (is_kept dels) todo = rw b in
      let m : n ≡ suc k + length (keep_if (is_kept dels) todo) = ground arith in
      let (gap', same, moved) = copy_down kept gap c (todo ++ zs) in
      let (junk, count, run) =
        delete_loop_lem dels todo (kept ++ c ∷ []) gap' zs (suc i) (suc k) n (omega lengths)
          (omega lengths) m in
      let copied = ap (λ (j : ℕ). set (kept ++ (gap ++ c ∷ (todo ++ zs))) j c) f ∙ moved in
      let ends =
        append_assoc kept (c ∷ []) (keep_if (is_kept dels) todo ++ (junk ++ zs))
        ∙ ap (λ (t : Bytes). kept ++ (t ++ (junk ++ zs))) (sym kept_now) in
      (
        junk,
        omega (arith, ap length kept_now),
        delete_copy dels (length todo) _ _ i k c b here copied
            ∙ run
            ∙ ap (λ (t : Bytes). (t, n)) ends,
      )
  | inr b ↦
      let dropped : keep_if (is_kept dels) (c ∷ todo) ≡ keep_if (is_kept dels) todo = rw b in
      let m : n ≡ k + length (keep_if (is_kept dels) todo) = ground arith in
      let (junk, count, run) =
        delete_loop_lem dels todo kept (gap ++ c ∷ []) zs (suc i) k n (omega lengths) f m in
      let moved = ap (λ (t : Bytes). kept ++ t) (sym (append_assoc gap (c ∷ []) (todo ++ zs))) in
      (
        junk,
        omega (lengths, ap length dropped),
        delete_skip dels (length todo) _ _ i k c b here moved
            ∙ run
            ∙ ap (λ (t : Bytes). (kept ++ (t ++ (junk ++ zs)), n)) (sym dropped),
      )
]
  where
    here : get_or (kept ++ (gap ++ c ∷ (todo ++ zs))) i 0 ≡ c
    here = get_or_behind kept gap c (todo ++ zs) i 0 e

contains_nothing : (d : Bytes) (c : ℕ) → length d ≡ 0 → contains d c ≡ false
contains_nothing [] c h = refl
contains_nothing (x ∷ d) c h = absurd (omega arith)

delete_nothing : (dels s : Bytes) → strlen dels ≡ 0 → keep_if (is_kept dels) s ≡ s
delete_nothing dels [] h = refl
delete_nothing dels (c ∷ s) h =
    ground (arith, contains_nothing (cstr dels) c h, delete_nothing dels s h)

-- The early return: nothing to delete, or nothing to delete from.
delete_early :
    (dels s : Bytes) → (length s == 0 || strlen dels == 0) ≡ true → keep_if (is_kept dels) s ≡ s
delete_early dels [] e = refl
delete_early dels (c ∷ s) e = delete_nothing dels (c ∷ s) (ground arith)

strdelchars_value :
    (s rest dels : Bytes)
    → IsText s
    → let buf = s ++ 0 ∷ rest in
      let r = delete_loop (length s) dels buf 0 0 in
      strdelchars (some buf) (some dels)
      ≡ (if length s == 0 || strlen dels == 0 then some buf else some (set r.0 r.1 0))
unfolding strdelchars
strdelchars_value s rest dels h = rw (strlen_text s rest h)

-- `strdelchars` keeps, in order, exactly the bytes of the string that are not in `dels`, with a 0
-- behind them; no byte behind the end of the old string changes.
pub strdelchars_lem :
    (s rest dels : Bytes)
    → IsText s
    → let kept = keep_if (is_kept dels) s in
      (junk : Bytes) × (length junk + length kept ≡ length s)
      × (strdelchars (some (s ++ 0 ∷ rest)) (some dels) ≡ some (kept ++ 0 ∷ (junk ++ rest)))
strdelchars_lem s rest dels h = elim (Bool-cases (length s == 0 || strlen dels == 0)) [
  | inl e ↦
      let same = delete_early dels s e in
      (
        [],
        omega (arith, ap length same),
        strdelchars_value s rest dels h
            ∙ rw e (ap (λ (t : Bytes). some (t ++ 0 ∷ rest)) (sym same)),
      )
  | inr e ↦
      let kept = keep_if (is_kept dels) s in
      let (gap, count, run) =
        delete_loop_lem dels s [] [] (0 ∷ rest) 0 0 (length kept) refl refl (omega arith) in
      let (junk, same, closed) = copy_down kept gap 0 rest in
      (
        junk,
        omega arith,
        strdelchars_value s rest dels h
            ∙ rw e (ap (λ (r : Bytes × ℕ). some (set r.0 r.1 0)) run)
            ∙ ap some (closed ∙ append_assoc kept (0 ∷ []) (junk ++ rest)),
      )
]
