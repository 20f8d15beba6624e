-- ===== src/Reason/Examples.antt =====
-- The theorems of the reasoning layer at concrete inputs.
use fin_docs_analysis_evals.Common.{
  string_eq, ℕ, String, ◌≡◌, refl, inr, none, some, List, [], ◌∷◌, ◌==◌, Result, ok, err, arith,
  if◌then◌else◌,
}
use fin_docs_analysis_evals.Common.Dict.{lookup}
use fin_docs_analysis_evals.Common.Int.{pos}
use fin_docs_analysis_evals.Reason.Decimal.{half_even, add, times, divide, total}
use fin_docs_analysis_evals.Reason.Decimal.Laws.{dec}
use fin_docs_analysis_evals.Reason.Formulas.{
  Formula, formulas, evaluate, check_signs, is_unsigned, weighted_sum,
}
use fin_docs_analysis_evals.Reason.Formulas.Laws.{
  IsWellFormed, formulas-IsWellFormed, specified, evaluate_lem,
}
use fin_docs_analysis_evals.Reason.Exec.{Code, Raised, evidence, metric_missing}
use fin_docs_analysis_evals.Reason.Figure.{
  SourceCitation, EvidenceValidation, Figure, figure, direct, computed, operands_of,
}
use fin_docs_analysis_evals.Reason.Calculate.{is_usable, combine, calculate}
use fin_docs_analysis_evals.Reason.DebtService.{reconcile_annual_service}
use fin_docs_analysis_evals.Reason.DebtService.Laws.{reading, partial_schedule_missing}
use fin_docs_analysis_evals.Reason.Gate.{FormulaChoice, first_formula}
use fin_docs_analysis_evals.Reason.Gate.Laws.{IsFirst, first_formula-IsFirst}
use fin_docs_analysis_evals.Reason.Dscr.{calculate_dscr}
use fin_docs_analysis_evals.Reason.Dscr.Laws.{IsChoice, IsSupported, calculate_dscr-IsSupported}

half_even_tie : half_even 125 1 ≡ 12
unfolding half_even
half_even_tie = refl

abbrev margin : Formula
margin = record {
  metric = "ebitda_margin_pct";
  operands = "ebitda_crore" ∷ "annual_revenue_crore" ∷ [];
  numerator = pos 1 ∷ pos 0 ∷ [];
  denominator = pos 0 ∷ pos 1 ∷ [];
  scale = pos 100;
  unit = "%";
}

margin_listed : lookup "ebitda_margin_v1" formulas ≡ some margin
unfolding formulas
margin_listed = refl

formulas-IsWellFormed_example : IsWellFormed margin
formulas-IsWellFormed_example = formulas-IsWellFormed "ebitda_margin_v1" margin margin_listed

margin-IsWellFormed : IsWellFormed margin
margin-IsWellFormed = record {
  numerator_fits = refl;
  denominator_fits = inr refl;
  at_least_two = omega arith;
  at_most_six = omega arith;
}

evaluate_lem_example :
    evaluate margin (dec (pos 25) 0 ∷ dec (pos 200) 0 ∷ [])
    ≡ specified margin (dec (pos 25) 0 ∷ dec (pos 200) 0 ∷ [])
evaluate_lem_example =
    evaluate_lem margin (dec (pos 25) 0 ∷ dec (pos 200) 0 ∷ []) margin-IsWellFormed

-- The ratio with a total and with a schedule of obligations.
abbrev noi_total : String
noi_total = "dscr_noi_reported_total_v1"

abbrev page : SourceCitation
page = record {
  document_id = "d1";
  page_number = 3;
  bbox = record { x0 = 0; y0 = 0; x1 = 100; y1 = 100 };
}

abbrev receipt : EvidenceValidation
receipt = record {
  policy_hash = "policy";
  metric_id = "metric";
  document_type = "audited_financials";
  entity_hash = "borrower";
  chunk_id = "chunk";
  source_value = "120";
  source_unit = "crore";
  conversion_factor = "1";
  period = some "2024";
  basis = some "standalone";
  basis_resolution = some "same_page";
  context_citations = [];
  interpretation_command_id = none;
  nic_mapping_version = none;
  source_provider = none;
  source_approval_id = none;
}

abbrev amount : String → ℕ → Figure
amount name crore =
    figure
      (record {
        label = name;
        value = dec (pos crore) 0;
        unit = some "INR crore";
        period = some "2024";
        citation = page;
        evidence_validation = some receipt;
      })
      direct

-- What the gate reads: the income and the debt service, and nothing else.
abbrev read_amount : String → Result Code Figure
read_amount name =
    if name == "noi_crore"
    then ok (amount "noi_crore" 120)
    else if name == "debt_service_crore"
    then ok (amount "debt_service_crore" 80)
    else err metric_missing

abbrev reported : Formula
reported = record {
  metric = "dscr";
  operands = "noi_crore" ∷ "debt_service_crore" ∷ [];
  numerator = pos 1 ∷ pos 0 ∷ [];
  denominator = pos 0 ∷ pos 1 ∷ [];
  scale = pos 1;
  unit = "x";
}

reported_listed : lookup noi_total formulas ≡ some reported
unfolding formulas
reported_listed = refl

abbrev operands : List Figure
operands = amount "noi_crore" 120 ∷ amount "debt_service_crore" 80 ∷ []

-- 120 / 80
abbrev ratio : Figure
ratio =
    figure
      (record {
        label = "dscr";
        value = dec (pos 1500000000000000000000000000) 27;
        unit = some "x";
        period = some "2024";
        citation = page;
        evidence_validation = some (record receipt {
          metric_id = "dscr";
          source_value = "";
          source_unit = "calculation";
          conversion_factor = "1";
        });
      })
      (computed noi_total "policy" (operands_of operands))

read_partial : String → Result Raised Figure
read_partial name =
    if name == "all_loan_principal_due_crore"
    then ok (amount "all_loan_principal_due_crore" 50)
    else if name == "debt_service_crore"
    then ok (amount "debt_service_crore" 80)
    else err (evidence metric_missing)

partial_schedule_missing_example :
    (reconcile_annual_service (reading read_partial) tt).0 ≡ err (evidence metric_missing)
unfolding read_partial
partial_schedule_missing_example =
    partial_schedule_missing read_partial (some (amount "all_loan_principal_due_crore" 50)) none
      none refl refl refl (λ e. cc) (λ e. absurd (omega arith))

read_schedule : String → Result Raised Figure
read_schedule name =
    if name == "all_loan_principal_due_crore"
    then ok (amount "all_loan_principal_due_crore" 50)
    else if name == "all_loan_interest_due_crore"
    then ok (amount "all_loan_interest_due_crore" 25)
    else if name == "additional_lease_service_crore"
    then ok (amount "additional_lease_service_crore" 5)
    else if name == "debt_service_crore"
    then ok (amount "debt_service_crore" 80)
    else err (evidence metric_missing)

choice : IsChoice noi_total
choice = ((reported, reported_listed, refl), (reported, reported_listed, refl))

assessed : calculate_dscr read_amount "policy" (some noi_total) none ≡ ok ratio
unfolding calculate_dscr evaluate check_signs is_unsigned weighted_sum divide times total add
    combine is_usable formulas
assessed = refl

calculate_dscr-IsSupported_example : IsSupported read_amount "policy" (noi_total ∷ []) ratio
calculate_dscr-IsSupported_example =
    calculate_dscr-IsSupported read_amount "policy" noi_total none ratio (choice, tt) assessed

abbrev formula_choice : FormulaChoice
formula_choice = record {
  calculations = ("dscr", "ebitda_margin_v1") ∷ [];
  calculation_alternatives = ("dscr", noi_total ∷ []) ∷ [];
  policy_hash = "policy";
}

second_formula :
    first_formula read_amount formula_choice ("ebitda_margin_v1" ∷ noi_total ∷ []) ≡ ok ratio
unfolding first_formula calculate formulas combine is_usable evaluate check_signs is_unsigned
    weighted_sum divide times add
second_formula = refl

first_formula-IsFirst_example :
    IsFirst read_amount formula_choice ("ebitda_margin_v1" ∷ noi_total ∷ []) ratio
first_formula-IsFirst_example =
    first_formula-IsFirst read_amount formula_choice ("ebitda_margin_v1" ∷ noi_total ∷ []) ratio
      second_formula
