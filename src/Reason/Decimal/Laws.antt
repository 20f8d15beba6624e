-- ===== src/Reason/Decimal/Laws.antt =====
-- Where the precision is not reached the arithmetic is exact.
use fin_docs_analysis_evals.Common.{ℕ, ◌+◌, ◌^◌, ◌<◌, ◌≡◌, refl, List, [], ◌∷◌, arith}
use fin_docs_analysis_evals.Common.Int.{ℤ, pos, negsuc, ◌+ℤ◌, ◌*ℤ◌}
use fin_docs_analysis_evals.Reason.Decimal.{Decimal, precision, magnitude, fix, add, times, divide}

abbrev pub dec : ℤ → ℕ → Decimal
dec c s = record { coefficient = c; scale = s }

add_test : add (dec (pos 125) 2) (dec (negsuc 4) 1) ≡ dec (pos 75) 2
unfolding add
add_test = refl

divide_test : divide (dec (pos 2) 0) (dec (pos 3) 0) ≡ dec (pos 6666666666666666666666666667) 28
unfolding divide
divide_test = refl

-- A coefficient of at most 28 digits is not rounded.
pub fix-small : (a : Decimal) → magnitude a.coefficient < 10 ^ precision → fix a ≡ a
unfolding fix
fix-small a h = ground arith

pub times-exact :
    (a : Decimal) (c : ℤ)
    → magnitude (a.coefficient *ℤ c) < 10 ^ precision
    → times a c ≡ dec (a.coefficient *ℤ c) a.scale
unfolding times
times-exact a c h = fix-small (dec (a.coefficient *ℤ c) a.scale) h

-- The sum of the coefficients, and a bound of it and of every partial sum.
abbrev pub sum_from : ℤ → List ℤ → ℤ
sum_from acc [] = acc
sum_from acc (c ∷ cs) = sum_from (acc +ℤ c) cs

abbrev pub magnitudes : List ℤ → ℕ
magnitudes [] = 0
magnitudes (c ∷ cs) = magnitude c + magnitudes cs

abbrev pub at : ℕ → List ℤ → List Decimal
at s [] = []
at s (c ∷ cs) = dec c s ∷ at s cs
