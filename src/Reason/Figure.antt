-- ===== src/Reason/Figure.antt =====
-- The records of src/findociq/reason/schema.py that calculations read and build. The value of a
-- figure is the decimal that its text stands for: `format(x, "f")` prints every digit, and
-- `Decimal` reads them back. `date_calculation` and `nic_activities` are not modelled.
use fin_docs_analysis_evals.Common.{ℕ, String, Option, List, [], ◌∷◌}
use fin_docs_analysis_evals.Reason.Decimal.{Decimal}

-- `BoundingBox`: coordinates in thousandths of a point.
pub record BoundingBox : Type 0 where
  pub x0 : ℕ
  pub y0 : ℕ
  pub x1 : ℕ
  pub y1 : ℕ

pub record SourceCitation : Type 0 where
  pub document_id : String
  pub page_number : ℕ
  pub bbox : BoundingBox

pub record EvidenceValidation : Type 0 where
  pub policy_hash : String
  pub metric_id : String
  pub document_type : String
  pub entity_hash : String
  pub chunk_id : String
  pub source_value : String
  pub source_unit : String
  pub conversion_factor : String
  pub period : Option String
  pub basis : Option String
  pub basis_resolution : Option String
  pub context_citations : List SourceCitation
  pub interpretation_command_id : Option String
  pub nic_mapping_version : Option String
  pub source_provider : Option String
  pub source_approval_id : Option String

-- The fields of `ExtractedFigure` but `calculation`.
pub record Fields : Type 0 where
  pub label : String
  pub value : Decimal
  pub unit : Option String
  pub period : Option String
  pub citation : SourceCitation
  pub evidence_validation : Option EvidenceValidation

-- `ExtractedFigure` and `CalculationReceipt` contain one another.
mutual
  pub data Figure : Type 0 where
    figure : Fields → Calculation → Figure

  pub data Calculation : Type 0 where
    direct : Calculation
    computed : String → String → Operands → Calculation

  pub data Operands : Type 0 where
    end : Operands
    operand : Figure → Operands → Operands

abbrev pub fields_of : Figure → Fields
fields_of (figure f c) = f

abbrev pub value_of : Figure → Decimal
value_of f = (fields_of f).value

abbrev pub validation_of : Figure → Option EvidenceValidation
validation_of f = (fields_of f).evidence_validation

abbrev pub operands_of : List Figure → Operands
operands_of [] = end
operands_of (f ∷ fs) = operand f (operands_of fs)
