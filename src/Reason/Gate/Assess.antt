-- ===== src/Reason/Gate/Assess.antt =====
-- `BorrowerEvidenceGate.assess` of src/findociq/reason/evidence_gate.py, and its records of
-- src/findociq/reason/schema.py. What `_rows` finds in a chunk is the argument `rows_of`.
pub mod Laws
use fin_docs_analysis_evals.Common.{
  string_eq, ℕ, ltb, String, Bool, true, false, ◌&&◌, ◌||◌, ◌==◌, Option, none, some, List, [], ◌∷◌,
  ◌++◌, map, take, length, is_empty, not, Result, ok, err, ◌>>=◌, ◌>>◌, raise_if, if◌then◌else◌,
}
use fin_docs_analysis_evals.Common.Dict.{Dict, lookup}
use fin_docs_analysis_evals.Common.Int.{ℤ, pos, eqb_ℤ}
use fin_docs_analysis_evals.Ingest.Schema.{Provenance, Chunk}
use fin_docs_analysis_evals.Reason.Exec.{
  Code, metric_missing, metric_not_allowed, context_conflict, value_ambiguous, conflicting_values,
  scope_violation, latest_period_missing, other_code, Raised, evidence, key_error,
}
use fin_docs_analysis_evals.Reason.Figure.{SourceCitation, Figure}
use fin_docs_analysis_evals.Reason.Formulas.{Formula, formulas, starts_with}
use fin_docs_analysis_evals.Reason.Dscr.{alternatives}
use fin_docs_analysis_evals.Reason.Gate.Policy.{MetricRule, EvidencePolicy}
use fin_docs_analysis_evals.Reason.Gate.Sources.{Row, rule_for}
use fin_docs_analysis_evals.Reason.Gate.Direct.{evidence_provenance}

-- The text of a code.
abbrev pub code_name : Code → String
code_name metric_missing = "evidence_metric_missing"
code_name metric_not_allowed = "metric_not_allowed"
code_name context_conflict = "evidence_context_conflict"
code_name value_ambiguous = "evidence_value_ambiguous"
code_name conflicting_values = "evidence_conflicting_values"
code_name scope_violation = "evidence_scope_violation"
code_name latest_period_missing = "evidence_latest_period_missing"
code_name (other_code name) = name

-- `s.endswith(part)`
unfoldable pub ends_with : String → String → Bool
ends_with part String.[] = String.[] == part
ends_with part (String.◌∷◌ c s) = String.◌∷◌ c s == part || ends_with part s

pub data Stage : Type 0 where
  numerator debt_service numerator_and_debt_service : Stage

pub record OperandDiagnostic : Type 0 where
  pub formula_id : String
  pub operand_id : String
  pub operand_error : Option Code
  pub stage : Option Stage

pub record FieldAssessment : Type 0 where
  pub assessed_metric : String
  pub status : String
  pub outcome_figure : Option Figure
  pub error_code : Option Code
  pub acceptable_sources : List String
  pub candidate_citations : List SourceCitation
  pub operand_diagnostics : List OperandDiagnostic

-- What `assess` raises.
pub data Failure : Type 0 where
  permission_error index_error validation_error : Failure
  raised : Raised → Failure

unfoldable pub status_of : Code → String
unfolding ends_with
status_of code =
    if code_name code == "evidence_conflicting_values"
    then "conflicting"
    else if ends_with "missing" (code_name code)
    then "missing"
    else "ambiguous"

abbrev pub is_scope_violation : Code → Bool
is_scope_violation code = code_name code == "evidence_scope_violation"

abbrev pub first_weight : List ℤ → Option ℤ
first_weight [] = none
first_weight (w ∷ ws) = some w

abbrev pub later_weights : List ℤ → List ℤ
later_weights [] = []
later_weights (w ∷ ws) = ws

abbrev pub is_used : ℤ → Bool
is_used w = not (eqb_ℤ w (pos 0))

abbrev pub stage_below : Option ℤ → Result Failure (Option Stage)
stage_below none = err index_error
stage_below (some d) = ok (some (if is_used d then numerator_and_debt_service else numerator))

abbrev pub stage_of : Option ℤ → Option ℤ → Result Failure (Option Stage)
stage_of none below = err index_error
stage_of (some n) below = if is_used n then stage_below below else ok (some debt_service)

abbrev pub formula_or_key_error : Option Formula → Result Failure Formula
formula_or_key_error none = err (raised key_error)
formula_or_key_error (some f) = ok f

-- The code of an operand that cannot be read; a scope violation ends the assessment.
abbrev pub operand_code : Result Code Figure → Result Failure (Option Code)
operand_code (ok f) = ok none
operand_code (err code) = if is_scope_violation code then err permission_error else ok (some code)

-- `error.code` of a failed extraction; another exception is not caught.
abbrev pub refused_code : Raised → Result Failure Code
refused_code (evidence code) = if is_scope_violation code then err permission_error else ok code
refused_code other = err (raised other)

abbrev pub sources_of : Option MetricRule → List String
sources_of none = []
sources_of (some rule) = rule.sources

abbrev pub found_rows : Result Code (List Row) → Bool
found_rows (ok rows) = not (is_empty rows)
found_rows (err code) = false

module _ (policy : EvidencePolicy) (cite : Provenance → SourceCitation)
    (rows_of : Chunk → MetricRule → Result Code (List Row)) (direct : String → Result Code Figure)
    (extract_figure : String → Result Raised Figure) where
  abbrev pub formula_ids : String → Option String → List String
  formula_ids metric none = []
  formula_ids metric (some primary) =
      primary ∷ alternatives (lookup metric policy.calculation_alternatives)

  abbrev pub stage_in : String → List ℤ → List ℤ → Result Failure (Option Stage)
  stage_in metric above below =
      if metric == "dscr" then stage_of (first_weight above) (first_weight below) else ok none

  -- The loop over the operands of a formula, with its weights at the same index.
  unfoldable pub diagnose_operands :
      String → String → List String → List ℤ → List ℤ → Result Failure (List OperandDiagnostic)
  diagnose_operands metric id [] above below = ok []
  diagnose_operands metric id (o ∷ os) above below = do
    code ← operand_code (direct o)
    stage ← stage_in metric above below
    rest ← diagnose_operands metric id os (later_weights above) (later_weights below)
    ok (record { formula_id = id; operand_id = o; operand_error = code; stage = stage } ∷ rest)

  unfoldable pub diagnose : String → List String → Result Failure (List OperandDiagnostic)
  unfolding diagnose_operands formulas
  diagnose metric [] = ok []
  diagnose metric (id ∷ ids) = do
    f ← formula_or_key_error (lookup id formulas)
    here ← diagnose_operands metric id f.operands f.numerator f.denominator
    rest ← diagnose metric ids
    ok (here ++ rest)

  abbrev pub candidates_for : MetricRule → List Chunk → List SourceCitation
  candidates_for rule [] = []
  candidates_for rule (c ∷ cs) =
      let rest = candidates_for rule cs in
      if found_rows (rows_of c rule) then map cite (evidence_provenance c) ++ rest else rest

  abbrev pub candidates : Option MetricRule → List Chunk → List SourceCitation
  candidates none chunks = []
  candidates (some rule) chunks = candidates_for rule chunks

  abbrev pub supported_field : String → Figure → FieldAssessment
  supported_field metric f = record {
    assessed_metric = metric;
    status = "supported";
    outcome_figure = some f;
    error_code = none;
    acceptable_sources = [];
    candidate_citations = [];
    operand_diagnostics = [];
  }

  abbrev pub refused_field : String → Code → List Chunk → List OperandDiagnostic → FieldAssessment
  refused_field metric code chunks diagnostics = record {
    assessed_metric = metric;
    status = status_of code;
    outcome_figure = none;
    error_code = some code;
    acceptable_sources = sources_of (rule_for policy metric);
    candidate_citations = take 20 (candidates (rule_for policy metric) chunks);
    operand_diagnostics = diagnostics;
  }

  -- One metric. A record holds 48 diagnostics at most.
  unfoldable pub assess_one :
      List Chunk → String → Result Raised Figure → Result Failure FieldAssessment
  unfolding diagnose status_of
  assess_one chunks metric (ok f) = ok (supported_field metric f)
  assess_one chunks metric (err e) = do
    code ← refused_code e
    diagnostics ← diagnose metric (formula_ids metric (lookup metric policy.calculations))
    raise_if (ltb 48 (length diagnostics)) validation_error
    ok (refused_field metric code chunks diagnostics)

  -- `assess`
  unfoldable pub assess_metrics : List Chunk → List String → Result Failure (List FieldAssessment)
  unfolding assess_one
  assess_metrics chunks [] = ok []
  assess_metrics chunks (metric ∷ metrics) = do
    field ← assess_one chunks metric (extract_figure metric)
    rest ← assess_metrics chunks metrics
    ok (field ∷ rest)
