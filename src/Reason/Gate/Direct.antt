-- ===== src/Reason/Gate/Direct.antt =====
-- `_direct` of src/findociq/reason/evidence_gate.py: the figure of a metric that the chunks state.
use fin_docs_analysis_evals.Common.{
  string_eq, nat_eq, str_lt, sorted, ℕ, ◌+◌, ltb, leb, String, Bool, true, false, not, ◌&&◌, ◌||◌,
  ◌==◌, Option, none, some, List, [], ◌∷◌, any, keep, is_empty, is_some, contains, length, Result,
  ok, err, ◌>>=◌, ◌>>◌, raise_if, if◌then◌else◌,
}
use fin_docs_analysis_evals.Common.Dict.{lookup}
use fin_docs_analysis_evals.Common.Int.{◌*ℤ◌}
use fin_docs_analysis_evals.Ingest.Schema.{Text, Provenance, Chunk, text_chunk, table_chunk, id_of}
use fin_docs_analysis_evals.Ingest.Chunker.Split.{strip}
use fin_docs_analysis_evals.Reason.Decimal.{Decimal, fix, is_negative}
use fin_docs_analysis_evals.Reason.Exec.{value_ambiguous, Raised, evidence}
use fin_docs_analysis_evals.Reason.Figure.{SourceCitation}
use fin_docs_analysis_evals.Reason.Gate.Policy.{
  Kind, money, percent, ratio, count, text, date, MetricRule, SourceApproval,
}
use fin_docs_analysis_evals.Reason.Gate.Profile.{DocumentProfile, provenance_of}
use fin_docs_analysis_evals.Reason.Gate.Sections.{SectionClassification}
use fin_docs_analysis_evals.Reason.Gate.Basis.{BasisResolution, pages_of}
use fin_docs_analysis_evals.Reason.Gate.Sources.{
  Row, Gate, named, entity_ambiguous_error, approvals_of, allowed_types,
}

pub data Value : Type 0 where
  number : Decimal → Value
  words : Text → Value

-- A figure that was read, with its receipt.
pub record Evidence : Type 0 where
  pub metric : String
  pub value : Value
  pub unit : String
  pub period : Option ℕ
  pub citation : SourceCitation
  pub policy_hash : String
  pub document_type : String
  pub approval : Option SourceApproval
  pub entity : String
  pub chunk_id : String
  pub source_value : Text
  pub source_unit : String
  pub factor : Decimal
  pub basis : Option BasisResolution
  pub from_activities : Bool

abbrev pub unit_ambiguous : Raised
unit_ambiguous = named "evidence_unit_ambiguous"

abbrev pub citation_ambiguous : Raised
citation_ambiguous = named "evidence_citation_ambiguous"

-- Types of pages that carry no financial figures.
abbrev pub incompatible : List String
incompatible =
    "pan" ∷ "aadhaar" ∷ "gst" ∷ "udyam" ∷ "incorporation" ∷ "agreement" ∷ "bank_statement"
    ∷ "utility_bill" ∷ "no_dues" ∷ []

abbrev pub is_money : Kind → Bool
is_money money = true
is_money _ = false

abbrev pub is_percent : Kind → Bool
is_percent percent = true
is_percent _ = false

-- The unit of a kind that is not money.
abbrev pub unit_of : Kind → String
unit_of money = ""
unit_of percent = "%"
unit_of ratio = "x"
unit_of count = "count"
unit_of text = "text"
unit_of date = "date"

-- `number * factor`, rounded to 28 digits
unfoldable pub multiply : Decimal → Decimal → Decimal
unfolding fix ◌*ℤ◌
multiply a b =
    fix (record { coefficient = a.coefficient *ℤ b.coefficient; scale = a.scale + b.scale })

abbrev pub is_before : ℕ → Option ℕ → Bool
is_before year none = false
is_before year (some p) = ltb p year

-- An older row than the latest year of the sources; an undated row is not.
abbrev pub is_older : Option ℕ → Row → Bool
is_older none row = false
is_older (some year) row = is_before year row.1

abbrev pub same_period : Option ℕ → Option ℕ → Bool
same_period none none = true
same_period (some a) (some b) = a == b
same_period _ _ = false

-- The rows that are left, and whether an older one was there.
abbrev pub recent_rows : MetricRule → Option ℕ → List Row → List Row
recent_rows rule latest rows =
    if rule.require_period then keep (λ row. not (is_older latest row)) rows else rows

abbrev pub had_older : MetricRule → Option ℕ → List Row → Bool
had_older rule latest rows = rule.require_period && any (is_older latest) rows

-- `(chunk.table_provenance or chunk.provenance) if chunk.kind == "table" else chunk.provenance`
abbrev pub or_all : List Provenance → List Provenance → List Provenance
or_all [] all_of = all_of
or_all (p ∷ ps) all_of = p ∷ ps

abbrev pub evidence_provenance : Chunk → List Provenance
evidence_provenance (text_chunk c) = c.text_provenance
evidence_provenance (table_chunk c) = or_all c.table_provenance c.provenances

abbrev pub on_section : Chunk → SectionClassification → Bool
on_section c s = any (λ n. leb s.page_start n && leb n s.page_end) (pages_of c)

abbrev pub first_or_empty : List String → String
first_or_empty [] = ""
first_or_empty (t ∷ ts) = t

abbrev pub only : List Provenance → Option Provenance
only [] = none
only (p ∷ []) = some p
only (p ∷ (q ∷ ps)) = none

abbrev pub or_value_ambiguous : {A : Type 0} → Option A → Result Raised A
or_value_ambiguous none = err (evidence value_ambiguous)
or_value_ambiguous (some a) = ok a

-- A count is a whole number that is not negative.
abbrev pub is_count : (Decimal → Bool) → Decimal → Bool
is_count is_whole n = not (is_negative n) && is_whole n

abbrev pub numeric : (Decimal → Bool) → Kind → Decimal → Decimal → Result Raised Value
numeric is_whole count factor n =
    if is_count is_whole n then ok (number (multiply n factor)) else err (evidence value_ambiguous)
numeric is_whole _ factor n = ok (number (multiply n factor))

abbrev pub text_value : Text → Result Raised Value
text_value t =
    if is_empty t || ltb 300 (length t) then err (evidence value_ambiguous) else ok (words t)

-- What one source, chunk and rule give to all the rows.
pub record Context : Type 0 where
  pub metric_id : String
  pub rule : MetricRule
  pub entity_hash : String
  pub source : DocumentProfile
  pub chunk : Chunk
  pub row_basis : Option BasisResolution
  pub row_unit : String
  pub row_factor : Decimal

module _ (g : Gate) (is_whole : Decimal → Bool) where
  -- The value of a row by the kind of the rule.
  unfoldable pub value_of : Kind → Decimal → Text → Result Raised Value
  unfolding multiply
  value_of date factor raw = do iso ← or_value_ambiguous (g.reader.iso_date raw); ok (words iso)
  value_of text factor raw = text_value (strip raw)
  value_of money factor raw =
      or_value_ambiguous (g.reader.numeric_cell raw) >>= numeric is_whole money factor
  value_of percent factor raw =
      or_value_ambiguous (g.reader.numeric_cell raw) >>= numeric is_whole percent factor
  value_of ratio factor raw =
      or_value_ambiguous (g.reader.numeric_cell raw) >>= numeric is_whole ratio factor
  value_of count factor raw =
      or_value_ambiguous (g.reader.numeric_cell raw) >>= numeric is_whole count factor

  abbrev pub or_empty_text : Value → Text
  or_empty_text (number d) = []
  or_empty_text (words t) = t

  -- A borrower's name is the entity's own.
  abbrev pub check_name : String → String → Value → Result Raised (Unit {0})
  check_name metric entity value =
      raise_if
        (metric == "borrower_name" && not (g.reader.identity (or_empty_text value) == entity))
        entity_ambiguous_error

  -- The one provenance of the evidence.
  abbrev pub cited_provenance : Chunk → Option Provenance → Result Raised SourceCitation
  cited_provenance c none = err citation_ambiguous
  cited_provenance c (some p) =
      if any (λ q. g.dump q == g.dump p) (provenance_of c)
      then ok (g.cite p)
      else err citation_ambiguous

  -- One row. The region of an address is left to `region_of`.
  unfoldable pub evidence_of :
      (Value → Result Raised Value) → Context → Row → Result Raised Evidence
  unfolding value_of
  evidence_of region_of k (raw, period) = do
    read ← value_of k.rule.kind k.row_factor raw
    check_name k.metric_id k.entity_hash read
    value ← if k.metric_id == "region" then region_of read else ok read
    citation ← cited_provenance k.chunk (only (evidence_provenance k.chunk))
    ok (record {
      metric = k.metric_id;
      value = value;
      unit =
          if is_money k.rule.kind
          then "INR crore"
          else if k.metric_id == "region"
          then "address"
          else k.row_unit;
      period = period;
      citation = citation;
      policy_hash = g.policy.policy_hash;
      document_type =
          first_or_empty
            (sorted str_lt (keep (λ t. contains t (allowed_types k.rule)) k.source.types));
      approval = lookup k.source.profile_id (approvals_of g.application g.policy.source_approvals);
      entity = k.entity_hash;
      chunk_id = id_of k.chunk;
      source_value = raw;
      source_unit = if k.metric_id == "region" then "address" else k.row_unit;
      factor = k.row_factor;
      basis = k.row_basis;
      from_activities = is_some k.rule.nic_level && g.has_activities k.chunk;
    })
