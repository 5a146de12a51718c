-- ===== src/Base/Numbers.antt =====
-- Integers, and the decimal digits that `%llu` prints.
use libc_jss.Base.Tests.{ltb, if◌then◌else◌, Bool-cases}
use libc_jss.Base.Lists.{length}
use libc_jss.Base.Strings.{Bytes}
use Prim.Native.Nat.{ℕ, zero, suc, ◌+◌, ◌-◌, ◌*◌, ◌/◌, ◌%◌, ◌^◌, ◌<◌, ◌≤◌}
use mathlib.Core.Path.{◌≡◌, sym, ap, ◌∙◌}
use mathlib.Core.Logic.{inl, inr}
use mathlib.Core.List.{[], ◌∷◌}
use native.Mathlib.Omega.{arith}

pub data ℤ : Type 0 where
  pos : ℕ → ℤ
  negsuc : ℕ → ℤ

-- The digits of a number in front of a text; the first argument bounds their count.
digits_onto : ℕ → ℕ → Bytes → Bytes
digits_onto zero n rest = rest
digits_onto (suc f) n rest =
    let more = digits_onto f (n / 10) ((n % 10 + 48) ∷ rest) in
    if ltb n 10 then (n + 48) ∷ rest else more

-- `%llu`: a 64-bit number has at most 20 digits.
unfoldable pub decimal : ℕ → Bytes
unfolding digits_onto
decimal n = digits_onto 20 n []

-- The number that a text of digits stands for, behind a number that is read already.
abbrev digits_value : ℕ → Bytes → ℕ
digits_value n [] = n
digits_value n (c ∷ s) = digits_value (n * 10 + (c - 48)) s

abbrev tens : ℕ → ℕ
tens zero = 1
tens (suc f) = 10 * tens f

digits_value-digits_onto :
    (f n : ℕ) (rest : Bytes)
    → n < tens f
    → digits_value 0 (digits_onto f n rest) ≡ digits_value n rest
unfolding digits_onto
digits_value-digits_onto zero n rest h =
    let e : 0 ≡ n = omega (arith, h) in ap (λ k. digits_value k rest) e
digits_value-digits_onto (suc f) n rest h = elim (Bool-cases (ltb n 10)) [
  | inl e ↦ rw e (ap (λ k. digits_value k rest) (omega arith))
  | inr e ↦ rw e (
      digits_value-digits_onto f (n / 10) ((n % 10 + 48) ∷ rest) (omega (arith, h))
      ∙ ap (λ k. digits_value k rest) (omega arith))
]

-- Different numbers have different digits.
pub decimal_injective : (m n : ℕ) → m < 2 ^ 64 → n < 2 ^ 64 → decimal m ≡ decimal n → m ≡ n
unfolding decimal
decimal_injective m n h k e =
    sym (digits_value-digits_onto 20 m [] (omega (arith, h)))
    ∙ ap (digits_value 0) e
    ∙ digits_value-digits_onto 20 n [] (omega (arith, k))

length-digits_onto : (f n : ℕ) (rest : Bytes) → length (digits_onto f n rest) ≤ f + length rest
unfolding digits_onto
length-digits_onto zero n rest = omega arith
length-digits_onto (suc f) n rest = elim (Bool-cases (ltb n 10)) [
  | inl e ↦ rw e (omega arith)
  | inr e ↦ rw e (omega (arith, length-digits_onto f (n / 10) ((n % 10 + 48) ∷ rest)))
]

pub length-decimal-le : (n : ℕ) → length (decimal n) ≤ 20
unfolding decimal
length-decimal-le n = length-digits_onto 20 n []
