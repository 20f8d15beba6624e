-- ===== src/Reason/Gate/Selection/Rows.antt =====
-- The loops of `_direct` of src/findociq/reason/evidence_gate.py over the sources, chunks and rows.
use fin_docs_analysis_evals.Common.{
  string_eq, nat_eq, ℕ, String, Bool, true, false, not, ◌&&◌, ◌||◌, ◌==◌, Option, none, some, List,
  [], ◌∷◌, ◌++◌, map, any, contains, Result, ok, err, ◌>>=◌, ◌>>◌, raise_if, if◌then◌else◌,
}
use fin_docs_analysis_evals.Common.Dict.{lookup}
use fin_docs_analysis_evals.Ingest.Schema.{Chunk, text_of, id_of}
use fin_docs_analysis_evals.Reason.Decimal.{Decimal, one_decimal}
use fin_docs_analysis_evals.Reason.Exec.{Raised, key_error}
use fin_docs_analysis_evals.Reason.Gate.Policy.{Kind, MetricRule}
use fin_docs_analysis_evals.Reason.Gate.Profile.{DocumentProfile, joined, distinct, sole, matches}
use fin_docs_analysis_evals.Reason.Gate.Sections.{SectionClassification}
use fin_docs_analysis_evals.Reason.Gate.Basis.{BasisResolution, sharing_page, resolve_basis}
use fin_docs_analysis_evals.Reason.Gate.Sources.{
  BasisInterpretation, Row, Gate, document_ambiguous, entity_ambiguous_error, period_ambiguous,
  Documents, shares, chunks_of,
}
use fin_docs_analysis_evals.Reason.Gate.Direct.{
  Value, Evidence, Context, unit_ambiguous, incompatible, is_money, is_percent, unit_of,
  same_period, recent_rows, had_older, on_section, evidence_of,
}

-- What a loop gives: whether an older row was there, and the evidence.
abbrev pub Found : Type 0
Found = Bool × List Evidence

abbrev pub optional_text : Option String → Option String → Bool
optional_text none none = true
optional_text (some a) (some b) = a == b
optional_text _ _ = false

abbrev pub basis_name : Option BasisResolution → Option String
basis_name none = none
basis_name (some b) = some b.basis

abbrev pub linked_to : String → Chunk → List BasisInterpretation → Option BasisInterpretation
linked_to document c [] = none
linked_to document c (i ∷ is) =
    let rest = linked_to document c is in
    if i.linked_document == document && i.target_chunk_id == id_of c then some i else rest

module _ (g : Gate) (is_whole : Decimal → Bool) (region_of : Value → Result Raised Value)
    (resolve_link : BasisInterpretation
      → Chunk
      → List Chunk
      → Option ℕ
      → Result Raised BasisResolution) where
  abbrev pub resolved_by :
      Option BasisInterpretation → Chunk → List Chunk → Option ℕ → Result Raised BasisResolution
  resolved_by none c source period =
      resolve_basis g.reader g.cite g.same_chunk g.policy c source period
  resolved_by (some link) c source period = resolve_link link c source period

  abbrev pub of_one_period :
      String → Chunk → List Chunk → List (Option ℕ) → Result Raised (Option BasisResolution)
  of_one_period document c source [] = err period_ambiguous
  of_one_period document c source (p ∷ (q ∷ ps)) = err period_ambiguous
  of_one_period document c source (p ∷ []) = do
    b ← resolved_by (linked_to document c g.interpretations) c source p
    ok (some b)

  -- The basis of the rows of a chunk, which share one period.
  unfoldable pub basis_for :
      MetricRule → String → Chunk → List Chunk → List Row → Result Raised (Option BasisResolution)
  unfolding resolve_basis
  basis_for rule document c source rows =
      if rule.require_basis
      then of_one_period document c source (distinct same_period (map (λ row. row.1) rows))
      else ok none

  abbrev pub or_key_error : Option Decimal → Result Raised Decimal
  or_key_error none = err key_error
  or_key_error (some d) = ok d

  abbrev pub money_unit : Option String → Result Raised (String × Decimal)
  money_unit none = err unit_ambiguous
  money_unit (some u) = do factor ← or_key_error (lookup u g.policy.unit_to_crore); ok (u, factor)

  abbrev pub kind_unit : Kind → Option String → Result Raised (String × Decimal)
  kind_unit kind stated =
      if is_money kind then money_unit stated else ok (unit_of kind, one_decimal)

  -- The unit that the page states for money, and the factor to crores.
  unfoldable pub unit_for : MetricRule → Chunk → List Chunk → Result Raised (String × Decimal)
  unfolding matches
  unit_for rule c source = do
    raise_if (is_percent rule.kind && not (g.reader.has_percent rule (text_of c))) unit_ambiguous
    kind_unit rule.kind
        (sole (matches g.reader (joined (sharing_page c source)) g.policy.unit_patterns))

  abbrev pub each_row : Context → List Row → Result Raised (List Evidence)
  each_row k [] = ok []
  each_row k (row ∷ rows) = do
    e ← evidence_of g is_whole region_of k row
    es ← each_row k rows
    ok (e ∷ es)

  abbrev pub off_topic : MetricRule → String → Chunk → List SectionClassification → Bool
  off_topic rule document c sections =
      rule.require_basis
      && any
          (λ s.
            s.section_document == document && shares s.section_types incompatible && on_section c s)
          sections

  abbrev pub not_owned : DocumentProfile → String → Bool
  not_owned p entity = p.entity_ambiguous || not (optional_text p.entity_hash (some entity))

  abbrev pub read_rows :
      String
      → MetricRule
      → String
      → List SectionClassification
      → DocumentProfile
      → List Chunk
      → Chunk
      → List Row
      → Result Raised (List Evidence)
  read_rows metric rule entity sections p source c [] = ok []
  read_rows metric rule entity sections p source c (row ∷ rows) = do
    raise_if (off_topic rule p.profile_id c sections) document_ambiguous
    raise_if (not_owned p entity) entity_ambiguous_error
    basis ← basis_for rule p.profile_id c source (row ∷ rows)
    unit ← unit_for rule c source
    each_row
        (record {
          metric_id = metric;
          rule = rule;
          entity_hash = entity;
          source = p;
          chunk = c;
          row_basis = basis;
          row_unit = unit.0;
          row_factor = unit.1;
        })
        (row ∷ rows)

  -- One chunk of a source.
  unfoldable pub read_chunk :
      String
      → MetricRule
      → String
      → Option ℕ
      → List SectionClassification
      → DocumentProfile
      → List Chunk
      → Chunk
      → Result Raised Found
  unfolding basis_for unit_for evidence_of
  read_chunk metric rule entity latest sections p source c = do
    rows ← g.rows_of c rule entity
    es ← read_rows metric rule entity sections p source c (recent_rows rule latest rows)
    ok (had_older rule latest rows, es)

  unfoldable pub read_chunks :
      String
      → MetricRule
      → String
      → Option ℕ
      → List SectionClassification
      → DocumentProfile
      → List Chunk
      → List Chunk
      → Result Raised Found
  unfolding read_chunk
  read_chunks metric rule entity latest sections p source [] = ok (false, [])
  read_chunks metric rule entity latest sections p source (c ∷ cs) = do
    first ← read_chunk metric rule entity latest sections p source c
    rest ← read_chunks metric rule entity latest sections p source cs
    ok (first.0 || rest.0, first.1 ++ rest.1)

  abbrev pub mixed_source : DocumentProfile → Bool
  mixed_source p =
      contains "audited_financials" p.types && shares p.types ("utility_bill" ∷ "no_dues" ∷ [])

  unfoldable pub read_sources :
      String
      → MetricRule
      → String
      → Option ℕ
      → List SectionClassification
      → Documents
      → List DocumentProfile
      → Result Raised Found
  unfolding read_chunks
  read_sources metric rule entity latest sections docs [] = ok (false, [])
  read_sources metric rule entity latest sections docs (p ∷ ps) = do
    raise_if (mixed_source p) document_ambiguous
    let source = chunks_of g (lookup p.profile_id docs)
    first ← read_chunks metric rule entity latest sections p source source
    rest ← read_sources metric rule entity latest sections docs ps
    ok (first.0 || rest.0, first.1 ++ rest.1)
