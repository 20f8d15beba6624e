-- ===== src/Reason/Gate/Policy.antt =====
-- The policy of src/findociq/reason/evidence_gate.py and its validation. A regular expression is known
-- by its text; what it matches is a parameter of the functions that search.
use fin_docs_analysis_evals.Common.{
  string_eq, pair_eq, ℕ, String, Bool, true, false, not, ◌&&◌, ◌==◌, Option, none, some, List, [],
  ◌∷◌, map, all, any, contains, is_some, Result, ok, if◌then◌else◌, raise_if, ◌>>◌,
}
use fin_docs_analysis_evals.Common.Dict.{Dict, lookup}
use fin_docs_analysis_evals.Reason.Decimal.{Decimal}
use fin_docs_analysis_evals.Reason.Formulas.{Formula, starts_with, has_substring}

pub data Kind : Type 0 where
  money percent ratio count text date : Kind

pub record MetricRule : Type 0 where
  pub sources : List String
  pub labels : List String
  pub kind : Kind
  pub require_period : Bool
  pub require_basis : Bool
  pub nic_level : Option ℕ
  pub table_column : Option String
  pub entity_heading_pattern : Option String
  pub required_context_labels : List String

pub record SourceApproval : Type 0 where
  pub application_id : String
  pub document_id : String
  pub provider : String
  pub approval_id : String

-- Patterns under a name: `dict[str, tuple[str, ...]]`
abbrev pub PatternGroups : Type 0
PatternGroups = Dict String (List String)

pub record EvidencePolicy : Type 0 where
  pub policy_hash : String
  pub classifier_version : String
  pub section_patterns : PatternGroups
  pub region_patterns : PatternGroups
  pub document_types : PatternGroups
  pub entity_patterns : List String
  pub basis_patterns : PatternGroups
  pub basis_declaration_patterns : List String
  pub reporting_scope_patterns : PatternGroups
  pub reporting_scope_conflicts : List String
  pub unit_patterns : PatternGroups
  pub unit_to_crore : Dict String Decimal
  pub metrics : Dict String MetricRule
  pub operands : Dict String MetricRule
  pub calculations : Dict String String
  pub calculation_alternatives : Dict String (List String)
  pub source_approvals : List SourceApproval

-- `len(xs) == len(set(xs))`
abbrev pub all_different : List (String × String) → Bool
all_different [] = true
all_different (x ∷ xs) = not (contains x xs) && all_different xs

abbrev pub listed : Option (List String) → List String
listed none = []
listed (some fs) = fs

abbrev pub alternatives_of : EvidencePolicy → String → List String
alternatives_of policy metric = listed (lookup metric policy.calculation_alternatives)

pub data PolicyError : Type 0 where
  duplicate_scope formula_mismatch mixed_definitions alternatives_without_primary : PolicyError

module _ (formulas : Dict String Formula) where
  abbrev pub is_formula_for : String → Option Formula → Bool
  is_formula_for metric none = false
  is_formula_for metric (some f) = f.metric == metric

  -- The family of a DSCR formula by its name.
  unfoldable pub definition_of : String → String
  unfolding starts_with has_substring
  definition_of f =
      if starts_with "dscr_noi_" f
      then "noi"
      else if has_substring "cash_accrual" f
      then "cash_accrual"
      else "cfads"

  -- `len({…}) != 1` for the definitions of the choices, of which there is one at least
  abbrev pub one_definition : List String → Bool
  one_definition [] = false
  one_definition (f ∷ fs) = all (λ g. definition_of g == definition_of f) fs

  -- The body of the loop over `calculations`.
  unfoldable pub check_choice : EvidencePolicy → String → String → Result PolicyError (Unit {0})
  unfolding definition_of
  check_choice policy metric primary =
      let choices = primary ∷ alternatives_of policy metric in
      raise_if (any (λ f. not (is_formula_for metric (lookup f formulas))) choices) formula_mismatch
      >> raise_if (metric == "dscr" && not (one_definition choices)) mixed_definitions

  unfoldable pub check_choices : EvidencePolicy → Dict String String → Result PolicyError (Unit {0})
  unfolding check_choice
  check_choices policy [] = ok tt
  check_choices policy ((metric, primary) ∷ rest) =
      check_choice policy metric primary >> check_choices policy rest

  abbrev pub scope_of : SourceApproval → String × String
  scope_of a = (a.application_id, a.document_id)

  -- `validate_formula_policy`
  unfoldable pub validate_formula_policy : EvidencePolicy → Result PolicyError (Unit {0})
  unfolding check_choices
  validate_formula_policy policy =
      raise_if (not (all_different (map scope_of policy.source_approvals))) duplicate_scope
      >> (check_choices policy policy.calculations
          >> raise_if
              (any (λ p. not (is_some (lookup p.0 policy.calculations)))
                policy.calculation_alternatives)
              alternatives_without_primary)
