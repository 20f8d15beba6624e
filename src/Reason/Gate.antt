-- ===== src/Reason/Gate.antt =====
-- `BorrowerEvidenceGate.extract` of src/findociq/reason/evidence_gate.py, of a metric that is not the
-- age of the company. What `_direct` reads from the chunks is the argument `direct`.
pub mod Laws
pub mod Policy
pub mod Profile
pub mod Sections
pub mod Citations
pub mod Basis
pub mod Sources
pub mod Direct
pub mod Selection
pub mod Interpretation
pub mod Assess
use fin_docs_analysis_evals.Common.{
  string_eq, String, Bool, true, false, ◌==◌, Option, none, some, List, [], ◌∷◌, is_some, Result,
  ok, err, if◌then◌else◌,
}
use fin_docs_analysis_evals.Common.Dict.{Dict, lookup}
use fin_docs_analysis_evals.Reason.Exec.{
  Code, metric_missing, metric_not_allowed, Raised, evidence, key_error, Exec, lift,
}
use fin_docs_analysis_evals.Reason.Figure.{Figure}
use fin_docs_analysis_evals.Reason.Calculate.{calculate}
use fin_docs_analysis_evals.Reason.Dscr.{from_cache, alternatives, calculate_dscr}

-- The parts of `EvidencePolicy` that choose formulas.
pub record FormulaChoice : Type 0 where
  pub calculations : Dict String String
  pub calculation_alternatives : Dict String (List String)
  pub policy_hash : String

module _ (direct : String → Result Code Figure) (choice : FormulaChoice) where
  -- `lambda operand: self._direct(operand, chunks)`
  abbrev pub read : String → Exec (Unit {0}) Figure
  read operand = lift (from_cache (direct operand))

  -- Only a missing operand lets the next formula be tried.
  abbrev pub unless_missing_then :
      Result Raised Figure → Result Raised Figure → Result Raised Figure
  unless_missing_then (err (evidence metric_missing)) next = next
  unless_missing_then r next = r

  unfoldable pub first_formula : List String → Result Raised Figure
  unfolding calculate
  first_formula [] = err (evidence metric_missing)
  first_formula (id ∷ ids) =
      unless_missing_then (calculate id read choice.policy_hash tt).0 (first_formula ids)

  abbrev pub calculated : String → Option String → Result Raised Figure
  calculated metric none = err (evidence metric_missing)
  calculated metric (some primary) =
      first_formula (primary ∷ alternatives (lookup metric choice.calculation_alternatives))

  -- `except EvidenceInsufficient`: a metric that is missing and has a formula is calculated.
  abbrev pub or_calculated : String → Result Code Figure → Result Raised Figure
  or_calculated metric (ok f) = ok f
  or_calculated metric (err metric_missing) = calculated metric (lookup metric choice.calculations)
  or_calculated metric (err c) = err (evidence c)

  unfoldable pub extract_metric : String → Result Raised Figure
  unfolding first_formula
  extract_metric metric =
      if metric == "dscr"
      then calculate_dscr direct choice.policy_hash (lookup "dscr" choice.calculations)
          (lookup "dscr" choice.calculation_alternatives)
      else or_calculated metric (direct metric)
