-- ===== src/Reason/Formulas/Entry.antt =====
-- `Formula` of src/findociq/reason/accounting_formulas.py
use fin_docs_analysis_evals.Common.{String, List}
use fin_docs_analysis_evals.Common.Int.{ℤ}

pub record Formula : Type 0 where
  pub metric : String
  pub operands : List String
  pub numerator : List ℤ
  pub denominator : List ℤ
  pub scale : ℤ
  pub unit : String
