-- ===== src/Reason/Formulas/Table.antt =====
-- `FORMULAS` of src/findociq/reason/accounting_formulas.py, in three parts in the order of the source.
use fin_docs_analysis_evals.Common.{String, List, [], ◌∷◌, ◌++◌}
use fin_docs_analysis_evals.Common.Int.{ℤ, pos, negsuc}
use fin_docs_analysis_evals.Common.Dict.{Dict}
use fin_docs_analysis_evals.Reason.Formulas.Entry.{Formula}

abbrev formula : String → List String → List ℤ → List ℤ → ℤ → String → Formula
formula metric operands numerator denominator scale unit = record {
  metric = metric;
  operands = operands;
  numerator = numerator;
  denominator = denominator;
  scale = scale;
  unit = unit;
}

unfoldable pub noi_formulas : Dict String Formula
noi_formulas =
    (
      "dscr_noi_operating_components_total_v1",
      formula "dscr"
          ("operating_revenue_crore" ∷ "operating_expenses_crore" ∷ "debt_service_crore" ∷ [])
          (pos 1 ∷ negsuc 0 ∷ pos 0 ∷ []) (pos 0 ∷ pos 0 ∷ pos 1 ∷ []) (pos 1) "x",
    )
    ∷ (
      "dscr_noi_operating_components_schedule_v1",
      formula "dscr"
          ("operating_revenue_crore" ∷ "operating_expenses_crore" ∷ "all_loan_principal_due_crore"
            ∷ "all_loan_interest_due_crore" ∷ "additional_lease_service_crore" ∷ [])
          (pos 1 ∷ negsuc 0 ∷ pos 0 ∷ pos 0 ∷ pos 0 ∷ [])
          (pos 0 ∷ pos 0 ∷ pos 1 ∷ pos 1 ∷ pos 1 ∷ []) (pos 1) "x",
    )
    ∷ (
      "dscr_noi_pnl_components_total_v1",
      formula "dscr"
          ("operating_revenue_crore" ∷ "pnl_total_expenses_crore" ∷ "finance_cost_crore"
            ∷ "debt_service_crore" ∷ [])
          (pos 1 ∷ negsuc 0 ∷ pos 1 ∷ pos 0 ∷ []) (pos 0 ∷ pos 0 ∷ pos 0 ∷ pos 1 ∷ []) (pos 1) "x",
    )
    ∷ (
      "dscr_noi_pnl_components_schedule_v1",
      formula "dscr"
          ("operating_revenue_crore" ∷ "pnl_total_expenses_crore" ∷ "finance_cost_crore"
            ∷ "all_loan_principal_due_crore" ∷ "all_loan_interest_due_crore"
            ∷ "additional_lease_service_crore" ∷ [])
          (pos 1 ∷ negsuc 0 ∷ pos 1 ∷ pos 0 ∷ pos 0 ∷ pos 0 ∷ [])
          (pos 0 ∷ pos 0 ∷ pos 0 ∷ pos 1 ∷ pos 1 ∷ pos 1 ∷ []) (pos 1) "x",
    )
    ∷ (
      "dscr_noi_reported_total_v1",
      formula "dscr" ("noi_crore" ∷ "debt_service_crore" ∷ []) (pos 1 ∷ pos 0 ∷ [])
          (pos 0 ∷ pos 1 ∷ []) (pos 1) "x",
    )
    ∷ (
      "dscr_noi_reported_schedule_v1",
      formula "dscr"
          ("noi_crore" ∷ "all_loan_principal_due_crore" ∷ "all_loan_interest_due_crore"
            ∷ "additional_lease_service_crore" ∷ [])
          (pos 1 ∷ pos 0 ∷ pos 0 ∷ pos 0 ∷ []) (pos 0 ∷ pos 1 ∷ pos 1 ∷ pos 1 ∷ []) (pos 1) "x",
    )
    ∷ []

unfoldable pub policy_formulas : Dict String Formula
policy_formulas =
    (
      "debt_ebitda_borrowings_v1",
      formula "debt_to_ebitda"
          ("long_term_borrowings_crore" ∷ "short_term_borrowings_crore" ∷ "ebitda_crore" ∷ [])
          (pos 1 ∷ pos 1 ∷ pos 0 ∷ []) (pos 0 ∷ pos 0 ∷ pos 1 ∷ []) (pos 1) "x",
    )
    ∷ (
      "dscr_cfads_all_obligations_v1",
      formula "dscr"
          ("cfads_crore" ∷ "all_loan_principal_due_crore" ∷ "all_loan_interest_due_crore"
            ∷ "additional_lease_service_crore" ∷ [])
          (pos 1 ∷ pos 0 ∷ pos 0 ∷ pos 0 ∷ []) (pos 0 ∷ pos 1 ∷ pos 1 ∷ pos 1 ∷ []) (pos 1) "x",
    )
    ∷ (
      "dscr_cash_accrual_pbt_v1",
      formula "dscr"
          ("pbt_crore" ∷ "net_tax_crore" ∷ "da_crore" ∷ "term_interest_due_crore"
            ∷ "principal_due_crore" ∷ [])
          (pos 1 ∷ negsuc 0 ∷ pos 1 ∷ pos 1 ∷ pos 0 ∷ [])
          (pos 0 ∷ pos 0 ∷ pos 0 ∷ pos 1 ∷ pos 1 ∷ []) (pos 1) "x",
    )
    ∷ (
      "debt_equity_llp_borrowings_v1",
      formula "debt_to_equity"
          ("long_term_borrowings_crore" ∷ "short_term_borrowings_crore"
            ∷ "partners_contribution_crore" ∷ "partners_current_account_crore" ∷ [])
          (pos 1 ∷ pos 1 ∷ pos 0 ∷ pos 0 ∷ []) (pos 0 ∷ pos 0 ∷ pos 1 ∷ pos 1 ∷ []) (pos 1) "x",
    )
    ∷ (
      "debt_equity_borrowings_v1",
      formula "debt_to_equity"
          ("long_term_borrowings_crore" ∷ "short_term_borrowings_crore" ∷ "total_equity_crore" ∷ [])
          (pos 1 ∷ pos 1 ∷ pos 0 ∷ []) (pos 0 ∷ pos 0 ∷ pos 1 ∷ []) (pos 1) "x",
    )
    ∷ (
      "debt_ebitda_borrowings_pbt_v1",
      formula "debt_to_ebitda"
          ("long_term_borrowings_crore" ∷ "short_term_borrowings_crore" ∷ "pbt_crore"
            ∷ "finance_cost_crore" ∷ "da_crore" ∷ [])
          (pos 1 ∷ pos 1 ∷ pos 0 ∷ pos 0 ∷ pos 0 ∷ []) (pos 0 ∷ pos 0 ∷ pos 1 ∷ pos 1 ∷ pos 1 ∷ [])
          (pos 1) "x",
    )
    ∷ []

unfoldable pub reported_formulas : Dict String Formula
reported_formulas =
    (
      "ebitda_margin_v1",
      formula "ebitda_margin_pct" ("ebitda_crore" ∷ "annual_revenue_crore" ∷ [])
          (pos 1 ∷ pos 0 ∷ []) (pos 0 ∷ pos 1 ∷ []) (pos 100) "%",
    )
    ∷ (
      "dscr_cfads_v1",
      formula "dscr" ("cfads_crore" ∷ "debt_service_crore" ∷ []) (pos 1 ∷ pos 0 ∷ [])
          (pos 0 ∷ pos 1 ∷ []) (pos 1) "x",
    )
    ∷ (
      "debt_equity_v1",
      formula "debt_to_equity" ("total_debt_crore" ∷ "total_equity_crore" ∷ []) (pos 1 ∷ pos 0 ∷ [])
          (pos 0 ∷ pos 1 ∷ []) (pos 1) "x",
    )
    ∷ (
      "debt_ebitda_v1",
      formula "debt_to_ebitda" ("total_debt_crore" ∷ "ebitda_crore" ∷ []) (pos 1 ∷ pos 0 ∷ [])
          (pos 0 ∷ pos 1 ∷ []) (pos 1) "x",
    )
    ∷ (
      "pat_pbt_net_tax_v1",
      formula "pat_crore" ("pbt_crore" ∷ "net_tax_crore" ∷ []) (pos 1 ∷ negsuc 0 ∷ []) ([]) (pos 1)
          "INR crore",
    )
    ∷ (
      "ebitda_pbt_finance_da_v1",
      formula "ebitda_crore" ("pbt_crore" ∷ "finance_cost_crore" ∷ "da_crore" ∷ [])
          (pos 1 ∷ pos 1 ∷ pos 1 ∷ []) ([]) (pos 1) "INR crore",
    )
    ∷ (
      "ebitda_margin_pbt_finance_da_v1",
      formula "ebitda_margin_pct"
          ("pbt_crore" ∷ "finance_cost_crore" ∷ "da_crore" ∷ "annual_revenue_crore" ∷ [])
          (pos 1 ∷ pos 1 ∷ pos 1 ∷ pos 0 ∷ []) (pos 0 ∷ pos 0 ∷ pos 0 ∷ pos 1 ∷ []) (pos 100) "%",
    )
    ∷ (
      "debt_ebitda_pbt_finance_da_v1",
      formula "debt_to_ebitda"
          ("total_debt_crore" ∷ "pbt_crore" ∷ "finance_cost_crore" ∷ "da_crore" ∷ [])
          (pos 1 ∷ pos 0 ∷ pos 0 ∷ pos 0 ∷ []) (pos 0 ∷ pos 1 ∷ pos 1 ∷ pos 1 ∷ []) (pos 1) "x",
    )
    ∷ (
      "dscr_cfads_schedule_v1",
      formula "dscr" ("cfads_crore" ∷ "term_interest_due_crore" ∷ "principal_due_crore" ∷ [])
          (pos 1 ∷ pos 0 ∷ pos 0 ∷ []) (pos 0 ∷ pos 1 ∷ pos 1 ∷ []) (pos 1) "x",
    )
    ∷ (
      "dscr_cash_accrual_v1",
      formula "dscr"
          ("pat_crore" ∷ "da_crore" ∷ "term_interest_due_crore" ∷ "principal_due_crore" ∷ [])
          (pos 1 ∷ pos 1 ∷ pos 1 ∷ pos 0 ∷ []) (pos 0 ∷ pos 0 ∷ pos 1 ∷ pos 1 ∷ []) (pos 1) "x",
    )
    ∷ []

unfoldable pub formulas : Dict String Formula
unfolding noi_formulas policy_formulas reported_formulas
formulas = noi_formulas ++ (policy_formulas ++ reported_formulas)
