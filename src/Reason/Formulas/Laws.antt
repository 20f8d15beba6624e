-- ===== src/Reason/Formulas/Laws.antt =====
-- Every formula of the table fits its operands, and what `evaluate` does on each branch.
use fin_docs_analysis_evals.Common.{
  nat_eq, string_eq, ◌≤◌, String, Bool, true, false, ◌&&◌, ◌||◌, not, some, List, [], ◌∷◌, ◌==◌,
  ◌≡◌, refl, ◌⊎◌, inl, inr, Result, ok, err, is_empty, length, nat_beq, leb, if◌then◌else◌, arith,
  Bool-cases,
}
use fin_docs_analysis_evals.Common.Int.{ℤ}
use fin_docs_analysis_evals.Common.Dict.{Dict, lookup}
use fin_docs_analysis_evals.Reason.Decimal.{
  Decimal, times, divide, total, zero_decimal, one_decimal, is_negative, is_nonpositive,
}
use fin_docs_analysis_evals.Reason.Formulas.{
  Formula, FormulaError, formulas, invalid_operands, negative_component, nonpositive_denominator,
  is_unsigned, check_signs, products, weighted_sum, bottom_of, evaluate,
}

-- Coefficients for each operand, and a number of operands that a receipt can hold (2 to 6).
pub record IsWellFormed (f : Formula) : Type 0 where
  pub numerator_fits : length f.numerator ≡ length f.operands
  pub denominator_fits : (f.denominator ≡ []) ⊎ (length f.denominator ≡ length f.operands)
  pub at_least_two : 2 ≤ length f.operands
  pub at_most_six : length f.operands ≤ 6

is_well_formed : Formula → Bool
is_well_formed f =
    nat_beq (length f.numerator) (length f.operands)
    && (is_empty f.denominator || nat_beq (length f.denominator) (length f.operands))
    && leb 2 (length f.operands)
    && leb (length f.operands) 6

every : (Formula → Bool) → Dict String Formula → Bool
every p [] = true
every p ((_, f) ∷ d) = p f && every p d

every-lookup :
    (p : Formula → Bool) (k : String) (f : Formula) (d : Dict String Formula)
    → every p d ≡ true
    → lookup k d ≡ some f
    → p f ≡ true
unfolding every
every-lookup p k f [] h e = cc
every-lookup p k f ((j, g) ∷ d) h e = elim (Bool-cases (j == k)) [
  | inl here ↦ ground (arith, here)
  | inr there ↦ every-lookup p k f d (ground arith) (rw there at e)
]

table_checked : every is_well_formed formulas ≡ true
unfolding every is_well_formed formulas
table_checked = refl

empty_list : {A : Type 0} (xs : List A) → is_empty xs ≡ true → xs ≡ []
empty_list [] h = refl
empty_list (x ∷ xs) h = cc

denominator_cases :
    (f : Formula)
    → (is_empty f.denominator || nat_beq (length f.denominator) (length f.operands)) ≡ true
    → (f.denominator ≡ []) ⊎ (length f.denominator ≡ length f.operands)
denominator_cases f h = elim (Bool-cases (is_empty f.denominator)) [
  | inl none_given ↦ inl (empty_list f.denominator none_given)
  | inr given ↦ inr (ground arith)
]

IsWellFormed-of_check : (f : Formula) → is_well_formed f ≡ true → IsWellFormed f
unfolding is_well_formed
IsWellFormed-of_check f h = record {
  numerator_fits = ground arith;
  denominator_fits = denominator_cases f (ground arith);
  at_least_two = ground arith;
  at_most_six = ground arith;
}

-- Every formula that can be selected has as many coefficients as operands.
pub formulas-IsWellFormed :
    (id : String) (f : Formula) → lookup id formulas ≡ some f → IsWellFormed f
formulas-IsWellFormed id f e =
    IsWellFormed-of_check f (every-lookup is_well_formed id f formulas table_checked e)

-- The checks and sums without `zip`'s exception.
abbrev pub any_negative : List String → List Decimal → Bool
any_negative (name ∷ names) (v ∷ vs) =
    let rest = any_negative names vs in (is_negative v && is_unsigned name) || rest
any_negative _ _ = false

abbrev pub multiplied : List Decimal → List ℤ → List Decimal
multiplied (v ∷ vs) (c ∷ cs) = times v c ∷ multiplied vs cs
multiplied _ _ = []

abbrev pub dot : List Decimal → List ℤ → Decimal
dot vs cs = total zero_decimal (multiplied vs cs)

abbrev pub bottom : Formula → List Decimal → Decimal
bottom f vs = if is_empty f.denominator then one_decimal else dot vs f.denominator

abbrev pub specified : Formula → List Decimal → Result FormulaError Decimal
specified f vs =
    if not (nat_beq (length vs) (length f.operands))
    then err invalid_operands
    else if any_negative f.operands vs
    then err negative_component
    else if is_nonpositive (bottom f vs)
    then err nonpositive_denominator
    else ok (times (divide (dot vs f.numerator) (bottom f vs)) f.scale)

check_signs_lem :
    (names : List String) (vs : List Decimal)
    → length vs ≡ length names
    → check_signs names vs ≡ (if any_negative names vs then err negative_component else ok tt)
unfolding check_signs
check_signs_lem [] [] h = refl
check_signs_lem [] (v ∷ vs) h = absurd (omega arith)
check_signs_lem (n ∷ names) [] h = absurd (omega arith)
check_signs_lem (n ∷ names) (v ∷ vs) h = elim (Bool-cases (is_negative v && is_unsigned n)) [
  | inl bad ↦ rw bad
  | inr fine ↦ rw fine (check_signs_lem names vs (omega arith))
]

products_lem :
    (vs : List Decimal) (cs : List ℤ)
    → length vs ≡ length cs
    → products vs cs ≡ ok (multiplied vs cs)
unfolding products
products_lem [] [] h = refl
products_lem [] (c ∷ cs) h = absurd (omega arith)
products_lem (v ∷ vs) [] h = absurd (omega arith)
products_lem (v ∷ vs) (c ∷ cs) h = rw (products_lem vs cs (omega arith))

weighted_sum_lem :
    (vs : List Decimal) (cs : List ℤ) → length vs ≡ length cs → weighted_sum vs cs ≡ ok (dot vs cs)
unfolding weighted_sum
weighted_sum_lem vs cs h = rw (products_lem vs cs h)

bottom_of_lem :
    (vs : List Decimal) (cs : List ℤ)
    → (cs ≡ []) ⊎ (length vs ≡ length cs)
    → bottom_of vs cs ≡ ok (if is_empty cs then one_decimal else dot vs cs)
bottom_of_lem vs [] h = refl
bottom_of_lem vs (c ∷ cs) (inl e) = cc
bottom_of_lem vs (c ∷ cs) (inr e) = weighted_sum_lem vs (c ∷ cs) e

-- On a well-formed formula `evaluate` refuses a wrong number of operands, then a negative component
-- that must not be one, then a denominator that is not positive; otherwise it is the quotient of
-- the two weighted sums, scaled. No other exception is raised.
pub evaluate_lem :
    (f : Formula) (vs : List Decimal) → IsWellFormed f → evaluate f vs ≡ specified f vs
unfolding evaluate
evaluate_lem f vs w = elim (Bool-cases (nat_beq (length vs) (length f.operands))) [
  | inr wrong ↦ rw wrong
  | inl right ↦
      let same : length vs ≡ length f.operands = ground arith in
      rw (right, check_signs_lem f.operands vs same)
        (elim (Bool-cases (any_negative f.operands vs)) [
          | inl bad ↦ rw bad
          | inr fine ↦
              rw
                (
                  fine,
                  weighted_sum_lem vs f.numerator (omega arith),
                  bottom_of_lem vs f.denominator (fits same w.denominator_fits),
                )
                (elim (Bool-cases (is_nonpositive (bottom f vs))) [
                  | inl low ↦ rw low
                  | inr high ↦ rw high
                ])
        ])
]
  where
    fits :
        length vs ≡ length f.operands
        → (f.denominator ≡ []) ⊎ (length f.denominator ≡ length f.operands)
        → (f.denominator ≡ []) ⊎ (length vs ≡ length f.denominator)
    fits same (inl e) = inl e
    fits same (inr e) = inr (omega arith)
