-- ===== src/Reason/Gate/Laws.antt =====
-- Calculation never goes around evidence.
use fin_docs_analysis_evals.Common.{
  string_eq, String, ◌≡◌, refl, ◌∙◌, List, [], ◌∷◌, Result, ok, err,
}
use fin_docs_analysis_evals.Reason.Exec.{Code, metric_missing, Raised, evidence}
use fin_docs_analysis_evals.Reason.Figure.{Figure}
use fin_docs_analysis_evals.Reason.Calculate.{calculate}
use fin_docs_analysis_evals.Reason.Gate.{FormulaChoice, read, unless_missing_then, first_formula}

module _ (direct : String → Result Code Figure) (choice : FormulaChoice) where
  -- The formula that a value comes from, and those before it, which each lack an operand.
  pub data IsFirst : List String → Figure → Type 0 where
    here :
        (id : String) (ids : List String) (f : Figure)
        → (calculate id (read direct choice) choice.policy_hash tt).0 ≡ ok f
        → IsFirst (id ∷ ids) f
    later :
        (id : String) (ids : List String) (f : Figure)
        → (calculate id (read direct choice) choice.policy_hash tt).0
          ≡ err (evidence metric_missing)
        → IsFirst ids f
        → IsFirst (id ∷ ids) f

  by_value :
      (id : String) (ids : List String) (f : Figure) (r : Result Raised Figure)
      → (calculate id (read direct choice) choice.policy_hash tt).0 ≡ r
      → (first_formula direct choice ids ≡ ok f → IsFirst ids f)
      → unless_missing_then direct choice r (first_formula direct choice ids) ≡ ok f
      → IsFirst (id ∷ ids) f
  by_value id ids f (ok g) got rest e = here id ids f (got ∙ e)
  by_value id ids f (err (evidence metric_missing)) got rest e = later id ids f got (rest e)
  by_value id ids f (err r) got rest e = cc

  -- A calculated value comes from the first formula of the policy that has all its operands: each
  -- formula before it raised that an operand is missing, and no other error.
  pub first_formula-IsFirst :
      (ids : List String) (f : Figure) → first_formula direct choice ids ≡ ok f → IsFirst ids f
  unfolding first_formula
  first_formula-IsFirst [] f e = cc
  first_formula-IsFirst (id ∷ ids) f e =
      by_value id ids f (calculate id (read direct choice) choice.policy_hash tt).0 refl
        (first_formula-IsFirst ids f) e
