-- ===== src/Reason/GateExamples.antt =====
-- The theorems of the evidence gate at concrete inputs: a registration of one page that states a ratio
-- for 2024, on standalone accounts.
use fin_docs_analysis_evals.Common.{
  string_eq, nat_eq, ℕ, String, ◌≡◌, refl, Bool, true, false, ◌==◌, none, some, List, [], ◌∷◌, any,
  contains, Result, ok, err, if◌then◌else◌,
}
use fin_docs_analysis_evals.Ingest.Schema.{Metadata, Provenance, Chunk, text_chunk, id_of}
use fin_docs_analysis_evals.Reason.Decimal.{Decimal, one_decimal}
use fin_docs_analysis_evals.Reason.Exec.{Code, metric_missing, Raised, evidence}
use fin_docs_analysis_evals.Reason.Figure.{BoundingBox, SourceCitation, Figure, figure, direct}
use fin_docs_analysis_evals.Reason.Gate.Policy.{ratio, MetricRule, EvidencePolicy}
use fin_docs_analysis_evals.Reason.Gate.Profile.{Reader}
use fin_docs_analysis_evals.Reason.Gate.Sections.{
  SectionClassification, confirmed, classify_sections,
}
use fin_docs_analysis_evals.Reason.Gate.Sections.Laws.{holds, is_on, classify_sections-covers}
use fin_docs_analysis_evals.Reason.Gate.Basis.{BasisResolution, resolve_basis}
use fin_docs_analysis_evals.Reason.Gate.Basis.Laws.{IsResolved, resolve_basis-IsResolved}
use fin_docs_analysis_evals.Reason.Gate.Sources.{BasisInterpretation, Row, Gate}
use fin_docs_analysis_evals.Reason.Gate.Direct.{Value, number, Evidence}
use fin_docs_analysis_evals.Reason.Gate.Interpretation.Options.{interpretation_options}
use fin_docs_analysis_evals.Reason.Gate.Assess.{
  FieldAssessment, assess_metrics, supported_field, refused_field,
}
use fin_docs_analysis_evals.Reason.Gate.Assess.Laws.{AreAssessed, assess_metrics-AreAssessed}

-- Each pattern is one code point.
abbrev mark : String → ℕ
mark p =
    if p == "registered"
    then 1
    else if p == "standalone accounts"
    then 2
    else if p == "statement of"
    then 3
    else if p == "auditor"
    then 4
    else 0

abbrev test_reader : Reader
test_reader = record {
  search = λ p t. contains (mark p) t;
  search_lines = λ p t. contains (mark p) t;
  identity = λ t. "acme";
  names_in = λ p t. if contains 9 t then (9 ∷ []) ∷ [] else [];
  report_years = λ t. if contains 24 t then 2024 ∷ [] else [];
  numeric_cell = λ t. some one_decimal;
  iso_date = λ t. none;
  has_percent = λ rule t. true;
}

abbrev test_rule : MetricRule
test_rule = record {
  sources = "registration" ∷ [];
  labels = "current ratio" ∷ [];
  kind = ratio;
  require_period = true;
  require_basis = true;
  nic_level = none;
  table_column = none;
  entity_heading_pattern = none;
  required_context_labels = [];
}

abbrev test_policy : EvidencePolicy
test_policy = record {
  policy_hash = "p";
  classifier_version = "v1";
  section_patterns = ("registration", "registered" ∷ []) ∷ [];
  region_patterns = [];
  document_types = ("registration", "registered" ∷ []) ∷ [];
  entity_patterns = "name" ∷ [];
  basis_patterns = ("standalone", "standalone accounts" ∷ []) ∷ [];
  basis_declaration_patterns = "statement of" ∷ [];
  reporting_scope_patterns = [];
  reporting_scope_conflicts = [];
  unit_patterns = [];
  unit_to_crore = [];
  metrics = ("current_ratio", test_rule) ∷ [];
  operands = [];
  calculations = [];
  calculation_alternatives = [];
  source_approvals = [];
}

abbrev test_place : Provenance
test_place = record { document_id = "d"; source_path = "d.pdf"; page_number = 1; geometry = "g" }

abbrev test_box : BoundingBox
test_box = record { x0 = 0; y0 = 0; x1 = 100; y1 = 100 }

abbrev test_cite : Provenance → SourceCitation
test_cite p = record { document_id = p.document_id; page_number = p.page_number; bbox = test_box }

abbrev no_metadata : Metadata
no_metadata = record {
  block_kind = none;
  part = none;
  table_name = none;
  atomic = false;
  page_spanning = false;
  parts = none;
  continued = false;
  config_hash = none;
  application_id = none;
}

abbrev test_chunk : Chunk
test_chunk = text_chunk (record {
  text_id = "c1";
  body = 1 ∷ 2 ∷ 3 ∷ 9 ∷ 24 ∷ [];
  text_provenance = test_place ∷ [];
  text_metadata = no_metadata;
})

abbrev same_id : Chunk → Chunk → Bool
same_id c d = id_of c == id_of d

abbrev test_link : BasisInterpretation
test_link = record {
  linked_document = "d";
  target_chunk_id = "c1";
  target_citation = test_cite test_place;
  linked_basis = "standalone";
  linked_period = 2024;
  linked_policy = "p";
  context_citations = test_cite test_place ∷ [];
  is_reporting_scope = false;
  linked_entity = none;
}

abbrev test_gate : Gate
test_gate = record {
  reader = test_reader;
  cite = test_cite;
  dump = λ p. p.geometry;
  same_chunk = same_id;
  policy = test_policy;
  application = none;
  interpretations = test_link ∷ [];
  command_id = some "command";
  rows_of = λ c rule entity. ok ((5 ∷ [], some 2024) ∷ []);
  has_activities = λ c. false;
}

abbrev whole : Decimal → Bool
whole d = true

abbrev as_it_is : Value → Result Raised Value
as_it_is v = ok v

abbrev linked_resolution : BasisResolution
linked_resolution = record {
  basis = "standalone";
  resolution = "reviewer_context_link";
  context = test_cite test_place ∷ [];
}

abbrev page_resolution : BasisResolution
page_resolution = record {
  basis = "standalone";
  resolution = "same_page";
  context = test_cite test_place ∷ [];
}

basis_found :
    resolve_basis test_reader test_cite same_id test_policy test_chunk (test_chunk ∷ []) (some 2024)
    ≡ ok page_resolution
unfolding resolve_basis
basis_found = refl

resolve_basis-IsResolved_example :
    IsResolved test_reader test_cite same_id test_policy test_chunk
      (test_chunk ∷ [])
      (some 2024)
      page_resolution
resolve_basis-IsResolved_example =
    resolve_basis-IsResolved test_reader test_cite same_id test_policy test_chunk (test_chunk ∷ [])
      (some 2024) page_resolution basis_found

abbrev test_section : SectionClassification
test_section = record {
  section_document = "d";
  page_start = 1;
  page_end = 1;
  section_types = "registration" ∷ [];
  status = confirmed;
  citations = test_cite test_place ∷ [];
}

sections_found :
    classify_sections test_reader
      (λ p. p.geometry)
      test_cite
      (test_chunk ∷ [])
      test_policy.section_patterns
    ≡ ok (test_section ∷ [])
unfolding classify_sections
sections_found = refl

classify_sections-covers_example :
    any (holds ("d", 1)) (test_section ∷ []) ≡ any (is_on ("d", 1)) (test_chunk ∷ [])
classify_sections-covers_example =
    classify_sections-covers test_reader (λ p. p.geometry) test_cite test_policy.section_patterns
      (test_chunk ∷ []) (test_section ∷ []) ("d", 1) sections_found

-- A report that names no basis, with an audit page.
abbrev scope_policy : EvidencePolicy
scope_policy = record test_policy {
  reporting_scope_patterns =
      ("audit", "auditor" ∷ [])
      ∷ ("scope", "auditor" ∷ [])
      ∷ ("statements", "auditor" ∷ [])
      ∷ ("preparation", "auditor" ∷ [])
      ∷ [];
}

abbrev audit_chunk : Chunk
audit_chunk = text_chunk (record {
  text_id = "c2";
  body = 1 ∷ 4 ∷ 9 ∷ 24 ∷ [];
  text_provenance = test_place ∷ [];
  text_metadata = no_metadata;
})

abbrev some_rows : Chunk → MetricRule → Result Code (List Row)
some_rows c rule = ok ((5 ∷ [], some 2024) ∷ [])

abbrev offered_link : BasisInterpretation
offered_link = record {
  linked_document = "d";
  target_chunk_id = "c2";
  target_citation = test_cite test_place;
  linked_basis = "standalone";
  linked_period = 2024;
  linked_policy = "p";
  context_citations = test_cite test_place ∷ [];
  is_reporting_scope = true;
  linked_entity = some "acme";
}

one_option :
    interpretation_options test_reader test_cite same_id scope_policy some_rows (audit_chunk ∷ [])
    ≡ offered_link ∷ []
unfolding interpretation_options
one_option = refl

abbrev found_ratio : Evidence
found_ratio = record {
  metric = "current_ratio";
  value = number one_decimal;
  unit = "x";
  period = some 2024;
  citation = test_cite test_place;
  policy_hash = "p";
  document_type = "registration";
  approval = none;
  entity = "acme";
  chunk_id = "c1";
  source_value = 5 ∷ [];
  source_unit = "x";
  factor = one_decimal;
  basis = some linked_resolution;
  from_activities = false;
}

abbrev test_figure : Figure
test_figure =
    figure
      (record {
        label = "current_ratio";
        value = one_decimal;
        unit = some "x";
        period = some "2024";
        citation = test_cite test_place;
        evidence_validation = none;
      })
      direct

abbrev test_rows : Chunk → MetricRule → Result Code (List Row)
test_rows c rule = ok ((5 ∷ [], some 2024) ∷ [])

abbrev no_operand : String → Result Code Figure
no_operand name = err metric_missing

abbrev extract_ratio : String → Result Raised Figure
extract_ratio metric =
    if metric == "current_ratio" then ok test_figure else err (evidence metric_missing)

abbrev test_fields : List FieldAssessment
test_fields =
    supported_field test_policy test_cite test_rows no_operand extract_ratio "current_ratio"
      test_figure
    ∷ refused_field test_policy test_cite test_rows no_operand extract_ratio "dscr" metric_missing
        (test_chunk ∷ []) []
    ∷ []

fields_found :
    assess_metrics test_policy test_cite test_rows no_operand extract_ratio
      (test_chunk ∷ [])
      ("current_ratio" ∷ "dscr" ∷ [])
    ≡ ok test_fields
unfolding assess_metrics
fields_found = refl

assess_metrics-AreAssessed_example :
    AreAssessed test_policy test_cite test_rows no_operand extract_ratio
      ("current_ratio" ∷ "dscr" ∷ [])
      test_fields
assess_metrics-AreAssessed_example =
    assess_metrics-AreAssessed test_policy test_cite test_rows no_operand extract_ratio
      (test_chunk ∷ []) ("current_ratio" ∷ "dscr" ∷ []) test_fields fields_found
