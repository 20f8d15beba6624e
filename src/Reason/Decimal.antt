-- ===== src/Reason/Decimal.antt =====
-- Python's `Decimal` for finite values, with the context of the program: precision 28, rounding to
-- the nearest even. A value is coefficient / 10 ^ scale. Which of the equal representations stands
-- for a number is not modelled, nor are the exponent limits of the context.
pub mod Laws
use fin_docs_analysis_evals.Common.{
  ℕ, zero, suc, ◌+◌, ◌-◌, ◌*◌, ◌/◌, ◌%◌, ◌^◌, max, Bool, true, false, List, [], ◌∷◌, leb, ltb,
  nat_beq, if◌then◌else◌,
}
use fin_docs_analysis_evals.Common.Int.{
  ℤ, pos, negsuc, pos_part, neg_part, ◌+ℤ◌, ◌*ℤ◌, sub_ℕ, ltb_ℤ, leb_ℤ, eqb_ℤ,
}

pub record Decimal : Type 0 where
  pub coefficient : ℤ
  pub scale : ℕ

abbrev pub precision : ℕ
precision = 28

-- |a|
abbrev pub magnitude : ℤ → ℕ
magnitude a = pos_part a + neg_part a

-- n with the sign of a
abbrev pub signed : ℤ → ℕ → ℤ
signed (pos _) n = pos n
signed (negsuc _) n = sub_ℕ 0 n

-- The digits of n, at least 1; n is fuel enough.
digits_from : ℕ → ℕ → ℕ
digits_from zero n = 1
digits_from (suc f) n = elim (ltb n 10) [ true ↦ 1 | false ↦ suc (digits_from f (n / 10)) ]

unfoldable pub digits : ℕ → ℕ
unfolding digits_from
digits n = digits_from n n

-- n / 10 ^ d to the nearest integer, ties to even
unfoldable pub half_even : ℕ → ℕ → ℕ
half_even n d =
    let q = n / 10 ^ d in
    let r = n % 10 ^ d in
    if ltb (2 * r) (10 ^ d) then q else if ltb (10 ^ d) (2 * r) then q + 1 else q + q % 2

-- c * 10 ^ up / 10 ^ down
abbrev pub at_scale : ℤ → ℕ → ℕ → ℕ → Decimal
at_scale s c up down = record { coefficient = signed s (c * 10 ^ (up - down)); scale = down - up }

-- Rounding to the precision of the context, after every operation.
unfoldable pub fix : Decimal → Decimal
unfolding digits half_even
fix a =
    let n = magnitude a.coefficient in
    let d = digits n - precision in
    if ltb n (10 ^ precision) then a else at_scale a.coefficient (half_even n d) d a.scale

-- The coefficient at a larger scale.
abbrev pub rescaled : Decimal → ℕ → ℤ
rescaled a s = a.coefficient *ℤ pos (10 ^ (s - a.scale))

unfoldable pub add : Decimal → Decimal → Decimal
unfolding fix ◌+ℤ◌ ◌*ℤ◌
add a b =
    let s = max a.scale b.scale in
    fix (record { coefficient = rescaled a s +ℤ rescaled b s; scale = s })

-- `value * coefficient` with a Python int
unfoldable pub times : Decimal → ℤ → Decimal
unfolding fix ◌*ℤ◌
times a c = fix (record { coefficient = a.coefficient *ℤ c; scale = a.scale })

-- `top / bottom` for a positive bottom: one digit more than the precision, a sticky last digit, and
-- one rounding.
unfoldable pub divide : Decimal → Decimal → Decimal
unfolding fix digits
divide a b =
    let x = magnitude a.coefficient in
    let y = magnitude b.coefficient in
    let up = digits y + precision + 1 - digits x in
    let down = digits x - (digits y + precision + 1) in
    let q = x * 10 ^ up / (y * 10 ^ down) in
    let r = x * 10 ^ up % (y * 10 ^ down) in
    let sticky = if nat_beq r 0 then q else if nat_beq (q % 5) 0 then q + 1 else q in
    fix (at_scale a.coefficient sticky (b.scale + down) (a.scale + up))

abbrev pub zero_decimal : Decimal
zero_decimal = record { coefficient = pos 0; scale = 0 }

abbrev pub one_decimal : Decimal
one_decimal = record { coefficient = pos 1; scale = 0 }

-- `sum(values)`
unfoldable pub total : Decimal → List Decimal → Decimal
total acc [] = acc
total acc (v ∷ vs) = total (add acc v) vs

-- The comparisons are exact.
abbrev pub is_negative : Decimal → Bool
is_negative a = ltb_ℤ a.coefficient (pos 0)

abbrev pub is_nonpositive : Decimal → Bool
is_nonpositive a = leb_ℤ a.coefficient (pos 0)

abbrev pub same_value : Decimal → Decimal → Bool
same_value a b = eqb_ℤ (rescaled a (max a.scale b.scale)) (rescaled b (max a.scale b.scale))
