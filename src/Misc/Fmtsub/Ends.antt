-- ===== src/Misc/Fmtsub/Ends.antt =====
-- The main loop of `fmtsub` ends by its own test.
use libc_jss.Base.{
  ltb, if_true, if_false, Bool-cases, Option-cases, length, length-drop, Bytes, ℕ, zero, suc, ◌+◌,
  ◌-◌, ◌≤◌, ◌<◌, ◌≡◌, refl, sym, ap, subst, ◌∙◌, inl, inr, Bool, true, false, ◌&&◌, Option, arith,
}
use libc_jss.Misc.Fmtsub.{
  Args, last_byte, first_match, Sub, fmtsub_round, fmtsub_loop, expand, copy_byte,
}
use libc_jss.Misc.Fmtsub.Expand.{first_match_lem, round_byte, round_variable}

-- The test of the loop
abbrev pub goes_on : Sub → Bool
goes_on s = ltb 0 (length s.subpat) && ltb s.posbuf last_byte

module _ (args : Args) where
  expand-length :
      (s : Sub) (var : Bytes) (exp : Option Bytes)
      → length (expand s var exp).subpat ≡ length s.subpat - length var
  unfolding expand
  expand-length s var exp = length-drop (length var) s.subpat

  copy_byte-length : (s : Sub) → length (copy_byte s).subpat ≡ length s.subpat - 1
  unfolding copy_byte
  copy_byte-length s = length-drop 1 s.subpat

  -- Each round takes a byte of the pattern at least.
  round_shorter :
      (s : Sub) → 0 < length s.subpat → length (fmtsub_round args s).subpat < length s.subpat
  round_shorter s g = elim (Option-cases (first_match s.subpat args)) [
    | inl m ↦ rw (round_byte args s m) (omega (arith, copy_byte-length s))
    | inr ((var, exp), m) ↦
        let found = first_match_lem s.subpat args var exp m in
        rw (round_variable args s var exp m) (omega (arith, expand-length s var exp, found.0))
  ]

  loop_stays : (fuel : ℕ) (s : Sub) → goes_on s ≡ false → fmtsub_loop fuel args s ≡ s
  unfolding fmtsub_loop
  loop_stays zero s g = refl
  loop_stays (suc fuel) s g = if_false (goes_on s) _ s g

  loop_goes :
      (fuel : ℕ) (s : Sub)
      → goes_on s ≡ true
      → fmtsub_loop (suc fuel) args s ≡ fmtsub_loop fuel args (fmtsub_round args s)
  unfolding fmtsub_loop
  loop_goes fuel s g = if_true (goes_on s) _ s g

  -- With a round for each byte of the pattern that is left, the loop stops where its own test
  -- fails, and more rounds change nothing.
  pub fmtsub_loop_ends :
      (fuel more : ℕ) (s : Sub)
      → length s.subpat ≤ fuel
      → (goes_on (fmtsub_loop fuel args s) ≡ false)
        × (fmtsub_loop (fuel + more) args s ≡ fmtsub_loop fuel args s)
  fmtsub_loop_ends zero more s h =
      let g : goes_on s ≡ false = ground arith in
      (
        subst (λ t. goes_on t ≡ false) (sym (loop_stays 0 s g)) g,
        loop_stays (0 + more) s g ∙ sym (loop_stays 0 s g),
      )
  fmtsub_loop_ends (suc fuel) more s h = elim (Bool-cases (goes_on s)) [
    | inr g ↦ (
      subst (λ t. goes_on t ≡ false) (sym (loop_stays (suc fuel) s g)) g,
      loop_stays (suc fuel + more) s g ∙ sym (loop_stays (suc fuel) s g),
    )
    | inl g ↦
        let left : 0 < length s.subpat = ground (arith, g) in
        let (stops, same) =
          fmtsub_loop_ends fuel more (fmtsub_round args s) (omega (arith, round_shorter s left)) in
        let one : suc fuel + more ≡ suc (fuel + more) = omega arith in
        (
          subst (λ t. goes_on t ≡ false) (sym (loop_goes fuel s g)) stops,
          ap (λ n. fmtsub_loop n args s) one
              ∙ loop_goes (fuel + more) s g
              ∙ same
              ∙ sym (loop_goes fuel s g),
        )
  ]
