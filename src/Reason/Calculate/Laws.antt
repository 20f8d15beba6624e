-- ===== src/Reason/Calculate/Laws.antt =====
-- What a calculated figure rests on.
use fin_docs_analysis_evals.Common.{string_eq, String, true, ◌≡◌, List, map, all, ok}
use fin_docs_analysis_evals.Reason.Decimal.{Decimal}
use fin_docs_analysis_evals.Reason.Formulas.{Formula, evaluate}
use fin_docs_analysis_evals.Reason.Figure.{
  Figure, figure, Calculation, computed, fields_of, value_of, operands_of,
}
use fin_docs_analysis_evals.Reason.Calculate.{is_usable, one_scope}

-- The calculation that a figure carries.
abbrev pub calculation_of : Figure → Calculation
calculation_of (figure f c) = c

pub record IsCalculated (id policy_hash : String) (f : Formula) (operands : List Figure)
    (result : Figure) : Type 0 where
  -- every operand is cited, authoritative, of this policy and in crores
  pub usable : all (is_usable policy_hash) operands ≡ true
  -- all operands are of one entity, period and basis
  pub scope : one_scope operands ≡ true
  pub value : evaluate f (map value_of operands) ≡ ok (value_of result)
  pub label : (fields_of result).label ≡ f.metric
  pub recorded : calculation_of result ≡ computed id policy_hash (operands_of operands)
