-- ===== src/Reason/Gate/Sources.antt =====
-- The choice of the documents that a metric may be read from: the first half of `_direct` of
-- src/findociq/reason/evidence_gate.py.
use fin_docs_analysis_evals.Common.{
  string_eq, nat_eq, ℕ, max, String, Bool, true, false, not, ◌&&◌, ◌||◌, ◌==◌, Option, none, some,
  List, [], ◌∷◌, ◌++◌, map, any, keep, is_empty, is_some, contains, Result, ok, err, ◌>>=◌, ◌>>◌,
  raise_if, if◌then◌else◌,
}
use fin_docs_analysis_evals.Common.Dict.{Dict, lookup}
use fin_docs_analysis_evals.Ingest.Schema.{Text, Provenance, Chunk, text_of}
use fin_docs_analysis_evals.Reason.Exec.{other_code, context_conflict, Raised, evidence}
use fin_docs_analysis_evals.Reason.Figure.{SourceCitation}
use fin_docs_analysis_evals.Reason.Gate.Policy.{MetricRule, SourceApproval, EvidencePolicy}
use fin_docs_analysis_evals.Reason.Gate.Profile.{
  Reader, DocumentProfile, distinct, same_text, sole, profile,
}
use fin_docs_analysis_evals.Reason.Gate.Basis.{documents_of}

-- `BasisInterpretation`: the authority is a reporting scope, or a link to context.
pub record BasisInterpretation : Type 0 where
  pub linked_document : String
  pub target_chunk_id : String
  pub target_citation : SourceCitation
  pub linked_basis : String
  pub linked_period : ℕ
  pub linked_policy : String
  pub context_citations : List SourceCitation
  pub is_reporting_scope : Bool
  pub linked_entity : Option String

-- A value as it is written, and its reporting year.
abbrev pub Row : Type 0
Row = Text × Option ℕ

-- `BorrowerEvidenceGate`, with the functions that it calls on texts and chunks.
pub record Gate : Type 0 where
  pub reader : Reader
  pub cite : Provenance → SourceCitation
  pub dump : Provenance → String
  pub same_chunk : Chunk → Chunk → Bool
  pub policy : EvidencePolicy
  pub application : Option String
  pub interpretations : List BasisInterpretation
  pub command_id : Option String
  -- `_rows`, with the entity that is expected
  pub rows_of : Chunk → MetricRule → String → Result Raised (List Row)
  -- the table of the chunk lists NIC activities
  pub has_activities : Chunk → Bool

abbrev pub named : String → Raised
named code = evidence (other_code code)

abbrev pub document_ambiguous : Raised
document_ambiguous = named "evidence_document_ambiguous"

abbrev pub entity_ambiguous_error : Raised
entity_ambiguous_error = named "evidence_entity_ambiguous"

abbrev pub period_ambiguous : Raised
period_ambiguous = named "evidence_period_ambiguous"

abbrev pub document_type_missing : Raised
document_type_missing = named "evidence_document_type_missing"

abbrev pub link_key : BasisInterpretation → String × String
link_key i = (i.linked_document, i.target_chunk_id)

abbrev pub all_unlike : List (String × String) → Bool
all_unlike [] = true
all_unlike ((d, c) ∷ ks) = not (any (λ k. k.0 == d && k.1 == c) ks) && all_unlike ks

-- The checks of `__init__`.
unfoldable pub check_gate : Gate → Result Raised (Unit {0})
check_gate g =
    raise_if
      (not (is_empty g.interpretations) && not (is_some g.command_id)
        || is_empty g.interpretations && is_some g.command_id)
      (named "evidence_receipt_invalid")
    >> raise_if (not (all_unlike (map link_key g.interpretations))) (evidence context_conflict)

abbrev pub Documents : Type 0
Documents = Dict String (List Chunk)

abbrev pub add_chunk : String → Chunk → Documents → Documents
add_chunk d c [] = (d, c ∷ []) ∷ []
add_chunk d c ((e, cs) ∷ docs) =
    let rest = add_chunk d c docs in if e == d then (e, cs ++ (c ∷ [])) ∷ docs else (e, cs) ∷ rest

abbrev pub add_owned : Option String → Chunk → Documents → Result Raised Documents
add_owned none c docs = err document_ambiguous
add_owned (some d) c docs = ok (add_chunk d c docs)

-- The chunks by document; each is evidence of one document.
unfoldable pub group_documents : List Chunk → Documents → Result Raised Documents
group_documents [] docs = ok docs
group_documents (c ∷ cs) docs = do
  next ← add_owned (sole (documents_of c)) c docs
  group_documents cs next

abbrev pub or_rule : Option MetricRule → Option MetricRule → Option MetricRule
or_rule (some r) other = some r
or_rule none other = other

abbrev pub rule_for : EvidencePolicy → String → Option MetricRule
rule_for policy metric = or_rule (lookup metric policy.metrics) (lookup metric policy.operands)

abbrev pub same_application : Option String → String → Bool
same_application none a = false
same_application (some b) a = a == b

-- `approvals`: those of this application, by document
abbrev pub approvals_of : Option String → List SourceApproval → Dict String SourceApproval
approvals_of app [] = []
approvals_of app (a ∷ more) =
    let others = approvals_of app more in
    if same_application app a.application_id then (a.document_id, a) ∷ others else others

abbrev pub vendor_report : String
vendor_report = "financial_information_report"

abbrev pub allowed_types : MetricRule → List String
allowed_types rule =
    if contains "audited_financials" rule.sources
    then vendor_report ∷ rule.sources
    else rule.sources

abbrev pub shares : List String → List String → Bool
shares xs ys = any (λ x. contains x ys) xs

module _ (g : Gate) where
  abbrev pub profiles : Documents → List DocumentProfile
  profiles [] = []
  profiles ((d, cs) ∷ docs) = profile g.reader d cs g.policy ∷ profiles docs

  abbrev pub is_approved : String → Bool
  is_approved d = is_some (lookup d (approvals_of g.application g.policy.source_approvals))

  abbrev pub is_vendor : DocumentProfile → Bool
  is_vendor p = contains vendor_report p.types

  -- The document may be a source for the rule.
  unfoldable pub is_source : MetricRule → DocumentProfile → Bool
  is_source rule p =
      shares p.types (allowed_types rule) && (not (is_vendor p) || is_approved p.profile_id)

  abbrev pub is_registration : DocumentProfile → Bool
  is_registration p =
      contains "registration" p.types && not (contains "agreement" p.types) && is_some p.entity_hash

  abbrev pub anchor_types : List String
  anchor_types = "registration" ∷ "agreement" ∷ "audited_financials" ∷ "pan" ∷ []

  abbrev pub is_other_anchor : DocumentProfile → Bool
  is_other_anchor p = shares p.types anchor_types || (is_vendor p && is_approved p.profile_id)

  abbrev pub or_others : List DocumentProfile → List DocumentProfile → List DocumentProfile
  or_others [] others = others
  or_others (p ∷ ps) others = p ∷ ps

  -- The documents that say who the borrower is: registrations, or else others with an identity.
  unfoldable pub anchors : List DocumentProfile → List DocumentProfile
  anchors ps = or_others (keep is_registration ps) (keep is_other_anchor ps)

  abbrev pub with_hash : Option String → List String → List String
  with_hash none hs = hs
  with_hash (some h) hs = h ∷ hs

  abbrev pub hashes : List DocumentProfile → List String
  hashes [] = []
  hashes (p ∷ ps) = with_hash p.entity_hash (hashes ps)

  abbrev pub or_ambiguous : Option String → Result Raised String
  or_ambiguous none = err entity_ambiguous_error
  or_ambiguous (some h) = ok h

  -- The one entity that the anchors name.
  unfoldable pub entity_of : List DocumentProfile → Result Raised String
  unfolding anchors
  entity_of ps =
      raise_if (any (λ p. p.entity_ambiguous) (anchors ps)) entity_ambiguous_error
      >> or_ambiguous (sole (distinct same_text (hashes (anchors ps))))

  -- The sources and the entity.
  unfoldable pub choose_sources :
      MetricRule → List DocumentProfile → Result Raised (List DocumentProfile × String)
  unfolding is_source entity_of
  choose_sources rule ps = do
    raise_if (is_empty (keep (is_source rule) ps) && any is_vendor ps) document_type_missing
    entity ← entity_of ps
    raise_if (is_empty (keep (is_source rule) ps)) document_type_missing
    ok (keep (is_source rule) ps, entity)

  abbrev pub chunks_of : Option (List Chunk) → List Chunk
  chunks_of none = []
  chunks_of (some cs) = cs

  abbrev pub years_of : List Chunk → List ℕ
  years_of [] = []
  years_of (c ∷ cs) = g.reader.report_years (text_of c) ++ years_of cs

  abbrev pub source_years : Documents → List DocumentProfile → List ℕ
  source_years docs [] = []
  source_years docs (p ∷ ps) =
      years_of (chunks_of (lookup p.profile_id docs)) ++ source_years docs ps

  abbrev pub latest_of : ℕ → List ℕ → ℕ
  latest_of y [] = y
  latest_of y (z ∷ zs) = latest_of (max y z) zs

  abbrev pub latest_or_ambiguous : List ℕ → Result Raised (Option ℕ)
  latest_or_ambiguous [] = err period_ambiguous
  latest_or_ambiguous (y ∷ ys) = ok (some (latest_of y ys))

  -- `latest_source_year`
  unfoldable pub latest_year :
      MetricRule → Documents → List DocumentProfile → Result Raised (Option ℕ)
  latest_year rule docs sources =
      if rule.require_period then latest_or_ambiguous (source_years docs sources) else ok none
