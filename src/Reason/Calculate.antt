-- ===== src/Reason/Calculate.antt =====
-- src/findociq/reason/calculations.py
pub mod Laws
use fin_docs_analysis_evals.Common.{
  string_eq, String, Bool, true, false, not, ◌&&◌, ◌||◌, Option, none, some, List, [], ◌∷◌, map,
  ◌==◌, all, any, is_some, Result, ok, err, if◌then◌else◌,
}
use fin_docs_analysis_evals.Common.Dict.{lookup}
use fin_docs_analysis_evals.Reason.Decimal.{Decimal}
use fin_docs_analysis_evals.Reason.Formulas.{Formula, FormulaError, formulas, evaluate}
use fin_docs_analysis_evals.Reason.Exec.{
  Code, Raised, evidence, metric_not_allowed, context_conflict, value_ambiguous, Exec, pure, raise,
  lift, ◌>>=◌, ◌>>◌,
}
use fin_docs_analysis_evals.Reason.Figure.{
  EvidenceValidation, Fields, Figure, figure, Calculation, direct, computed, fields_of, value_of,
  validation_of, operands_of,
}

abbrev pub opt_eq : Option String → Option String → Bool
opt_eq none none = true
opt_eq (some a) (some b) = a == b
opt_eq _ _ = false

-- Python's truth of an optional text
abbrev pub truthy : Option String → Bool
truthy none = false
truthy (some s) = not (s == "")

abbrev pub is_direct : Figure → Bool
is_direct (figure f direct) = true
is_direct (figure f (computed _ _ _)) = false

-- A document of authority: audited accounts, or a provider's report that was approved.
unfoldable pub is_authoritative : EvidenceValidation → Bool
is_authoritative r =
    r.document_type == "audited_financials"
    || (r.document_type == "financial_information_report"
        && opt_eq r.source_provider (some "probe42")
        && truthy r.source_approval_id)

abbrev pub has_basis : Option String → Bool
has_basis none = false
has_basis (some b) = b == "standalone" || b == "consolidated"

abbrev pub receipt_usable : String → Option EvidenceValidation → Bool
receipt_usable policy_hash none = false
receipt_usable policy_hash (some r) =
    r.policy_hash == policy_hash && is_authoritative r && has_basis r.basis && truthy r.period

-- The operand passes every test of the `any(…)` in `calculate`.
unfoldable pub is_usable : String → Figure → Bool
unfolding is_authoritative
is_usable policy_hash f =
    receipt_usable policy_hash (validation_of f)
    && is_direct f
    && opt_eq (fields_of f).unit (some "INR crore")

abbrev pub same_scope : EvidenceValidation → EvidenceValidation → Bool
same_scope a b =
    a.entity_hash == b.entity_hash && opt_eq a.period b.period && opt_eq a.basis b.basis

abbrev pub same_scope_opt : EvidenceValidation → Option EvidenceValidation → Bool
same_scope_opt a none = false
same_scope_opt a (some b) = same_scope a b

abbrev pub one_scope_with : Option EvidenceValidation → List Figure → Bool
one_scope_with none fs = false
one_scope_with (some r) fs = all (λ g. same_scope_opt r (validation_of g)) fs

-- `len({(r.entity_hash, r.period, r.basis) for r in receipts}) == 1`, the receipts being present
abbrev pub one_scope : List Figure → Bool
one_scope [] = false
one_scope (f ∷ fs) = one_scope_with (validation_of f) fs

-- `tuple(extract(name) for name in formula.operands)`
unfoldable pub extract_all :
    {S : Type 0} → (String → Exec S Figure) → List String → Exec S (List Figure)
extract_all extract [] = pure []
extract_all extract (name ∷ names) = do
  f ← extract name
  rest ← extract_all extract names
  pure (f ∷ rest)

-- `receipts[0].model_copy(update={…})`
abbrev pub calculation_receipt : String → EvidenceValidation → EvidenceValidation
calculation_receipt metric r = record r {
  metric_id = metric;
  source_value = "";
  source_unit = "calculation";
  conversion_factor = "1";
}

abbrev pub with_receipt :
    String
    → String
    → Formula
    → List Figure
    → Decimal
    → Figure
    → Option EvidenceValidation
    → Result Raised Figure
with_receipt id policy_hash f operands value first none = err (evidence context_conflict)
with_receipt id policy_hash f operands value first (some r) = ok (
    figure
      (record {
        label = f.metric;
        value = value;
        unit = some f.unit;
        period = (fields_of first).period;
        citation = (fields_of first).citation;
        evidence_validation = some (calculation_receipt f.metric r);
      })
      (computed id policy_hash (operands_of operands)))

abbrev pub from_value :
    String → String → Formula → List Figure → Result FormulaError Decimal → Result Raised Figure
from_value id policy_hash f operands (err e) = err (evidence value_ambiguous)
from_value id policy_hash f [] (ok value) = err (evidence context_conflict)
from_value id policy_hash f (first ∷ rest) (ok value) =
    with_receipt id policy_hash f (first ∷ rest) value first (validation_of first)

-- From the operands on.
unfoldable pub combine : String → String → Formula → List Figure → Result Raised Figure
combine id policy_hash f operands =
    if not (all (is_usable policy_hash) operands) || not (one_scope operands)
    then err (evidence context_conflict)
    else from_value id policy_hash f operands (evaluate f (map value_of operands))

abbrev pub with_formula :
    {S : Type 0} → String → (String → Exec S Figure) → String → Option Formula → Exec S Figure
with_formula id extract policy_hash none = raise (evidence metric_not_allowed)
with_formula id extract policy_hash (some f) = do
  operands ← extract_all extract f.operands
  lift (combine id policy_hash f operands)

-- `calculate(formula_id, extract, policy_hash)`
unfoldable pub calculate : {S : Type 0} → String → (String → Exec S Figure) → String → Exec S Figure
unfolding extract_all
calculate id extract policy_hash = with_formula id extract policy_hash (lookup id formulas)
