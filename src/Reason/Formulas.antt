-- ===== src/Reason/Formulas.antt =====
-- src/findociq/reason/accounting_formulas.py
mod Table
pub mod Laws
pub mod Entry
unfoldable pub use Table.{formulas}
pub use Entry.{Formula}
use fin_docs_analysis_evals.Common.{
  string_eq, ℕ, String, Bool, true, false, ◌&&◌, ◌||◌, List, [], ◌∷◌, ◌==◌, any, contains, Result,
  ok, err, ◌>>=◌, ◌>>◌, guard, raise_if, is_empty, length, nat_beq, if◌then◌else◌,
}
use Prim.Native.Char.{code}
use fin_docs_analysis_evals.Common.Int.{ℤ}
use fin_docs_analysis_evals.Reason.Decimal.{
  Decimal, times, divide, total, zero_decimal, one_decimal, is_negative, is_nonpositive,
}

-- The `ValueError`s of `evaluate`; `zip_strict` is the one of `zip(…, strict=True)`.
pub data FormulaError : Type 0 where
  invalid_operands negative_component nonpositive_denominator zip_strict : FormulaError

unfoldable pub starts_with : String → String → Bool
starts_with String.[] s = true
starts_with (String.◌∷◌ c p) String.[] = false
starts_with (String.◌∷◌ c p) (String.◌∷◌ d s) = nat_beq (code c) (code d) && starts_with p s

-- `part in s`
unfoldable pub has_substring : String → String → Bool
unfolding starts_with
has_substring part String.[] = starts_with part String.[]
has_substring part (String.◌∷◌ c s) = starts_with part (String.◌∷◌ c s) || has_substring part s

-- The names of the components that must not be negative.
abbrev pub unsigned_names : List String
unsigned_names =
    "all_loan_principal_due_crore" ∷ "all_loan_interest_due_crore"
    ∷ "additional_lease_service_crore" ∷ "operating_expenses_crore" ∷ "pnl_total_expenses_crore"
    ∷ "finance_cost_crore" ∷ "da_crore" ∷ "term_interest_due_crore" ∷ "principal_due_crore" ∷ []

unfoldable pub is_unsigned : String → Bool
unfolding has_substring
is_unsigned name = has_substring "borrowings" name || contains name unsigned_names

-- `for name, value in zip(self.operands, values, strict=True)`
unfoldable pub check_signs : List String → List Decimal → Result FormulaError (Unit {0})
unfolding is_unsigned
check_signs [] [] = ok tt
check_signs (name ∷ names) (v ∷ vs) =
    let rest = check_signs names vs in
    if is_negative v && is_unsigned name then err negative_component else rest
check_signs _ _ = err zip_strict

-- `(v * c for v, c in zip(values, coefficients, strict=True))`
unfoldable pub products : List Decimal → List ℤ → Result FormulaError (List Decimal)
unfolding times
products [] [] = ok []
products (v ∷ vs) (c ∷ cs) = do rest ← products vs cs; ok (times v c ∷ rest)
products _ _ = err zip_strict

unfoldable pub weighted_sum : List Decimal → List ℤ → Result FormulaError Decimal
unfolding products total
weighted_sum vs cs = do terms ← products vs cs; ok (total zero_decimal terms)

abbrev pub bottom_of : List Decimal → List ℤ → Result FormulaError Decimal
bottom_of vs [] = ok one_decimal
bottom_of vs (c ∷ cs) = weighted_sum vs (c ∷ cs)

unfoldable pub evaluate : Formula → List Decimal → Result FormulaError Decimal
evaluate f values = do
  guard (nat_beq (length values) (length f.operands)) invalid_operands
  check_signs f.operands values
  top ← weighted_sum values f.numerator
  bottom ← bottom_of values f.denominator
  raise_if (is_nonpositive bottom) nonpositive_denominator
  ok (times (divide top bottom) f.scale)
