-- ===== src/Reason/Gate/Interpretation.antt =====
-- src/findociq/reason/interpretations.py: the links that a reviewer makes from a figure to the context
-- of its basis, verified against the chunks of the document.
pub mod Context
pub mod Laws
pub mod Options
pub mod Offers
use fin_docs_analysis_evals.Common.{
  string_eq, nat_eq, ℕ, ltb, String, Bool, true, false, not, ◌&&◌, ◌||◌, ◌==◌, Option, none, some,
  List, [], ◌∷◌, ◌++◌, map, all, any, keep, is_empty, is_some, contains, length, Result, ok, err,
  ◌>>=◌, ◌>>◌, raise_if, if◌then◌else◌,
}
use fin_docs_analysis_evals.Common.Dict.{lookup}
use fin_docs_analysis_evals.Ingest.Schema.{Text, Provenance, Chunk, text_of, id_of}
use fin_docs_analysis_evals.Reason.Exec.{Raised, evidence, scope_violation, context_conflict}
use fin_docs_analysis_evals.Reason.Figure.{SourceCitation}
use fin_docs_analysis_evals.Reason.Gate.Policy.{EvidencePolicy, PatternGroups}
use fin_docs_analysis_evals.Reason.Gate.Citations.{ground_citation, same_citation}
use fin_docs_analysis_evals.Reason.Gate.Profile.{
  Reader, DocumentProfile, provenance_of, joined, sole, matches, matches_any, declares, profile,
}
use fin_docs_analysis_evals.Reason.Gate.Basis.{
  BasisResolution, basis_ambiguous, pages_of, sharing_page,
}
use fin_docs_analysis_evals.Reason.Gate.Sources.{
  BasisInterpretation, entity_ambiguous_error, period_ambiguous,
}
use fin_docs_analysis_evals.Reason.Gate.Direct.{citation_ambiguous, same_period}
use fin_docs_analysis_evals.Reason.Gate.Selection.Rows.{optional_text}

abbrev pub of_other_document : String → Chunk → Bool
of_other_document document c = any (λ p. not (p.document_id == document)) (provenance_of c)

-- `set(years) == {year}`
abbrev pub only_year : ℕ → List ℕ → Bool
only_year year years = not (is_empty years) && all (λ y. y == year) years

abbrev pub cites : SourceCitation → List SourceCitation → Bool
cites c cs = any (same_citation c) cs

-- `set(groups) == {"audit", "scope", "statements", "preparation"}`; the names of a dict differ
abbrev pub scope_groups : List String
scope_groups = "audit" ∷ "scope" ∷ "statements" ∷ "preparation" ∷ []

abbrev pub are_scope_groups : PatternGroups → Bool
are_scope_groups groups =
    all (λ group. contains group.0 scope_groups) groups
    && all (λ name. is_some (lookup name groups)) scope_groups

abbrev pub patterns_of : Option (List String) → List String
patterns_of none = []
patterns_of (some ps) = ps

abbrev pub group_of : PatternGroups → String → List String
group_of groups name = patterns_of (lookup name groups)

module _ (r : Reader) (cite : Provenance → SourceCitation) (policy : EvidencePolicy) where
  abbrev pub citations_of : Chunk → List SourceCitation
  citations_of c = map cite (provenance_of c)

  abbrev pub citations_in : List Chunk → List SourceCitation
  citations_in [] = []
  citations_in (c ∷ cs) = citations_of c ++ citations_in cs

  abbrev pub or_citation_ambiguous : Option SourceCitation → Result Raised SourceCitation
  or_citation_ambiguous none = err citation_ambiguous
  or_citation_ambiguous (some c) = ok c

  abbrev pub grounded : SourceCitation → List SourceCitation → Result Raised SourceCitation
  grounded citation candidates = or_citation_ambiguous (ground_citation citation candidates)

  -- The chunks that the citations of the link stand for.
  abbrev pub selected_chunks :
      String → List Chunk → List SourceCitation → Result Raised (List Chunk)
  selected_chunks document source [] = ok []
  selected_chunks document source (c ∷ cs) = do
    raise_if (not (c.document_id == document)) (evidence scope_violation)
    canonical ← grounded c (citations_in source)
    rest ← selected_chunks document source cs
    ok (keep (λ x. cites canonical (citations_of x)) source ++ rest)

  abbrev pub with_pattern : List String → List Chunk → List Chunk
  with_pattern patterns cs = keep (λ c. matches_any r patterns (text_of c)) cs

  abbrev pub groups : PatternGroups
  groups = policy.reporting_scope_patterns

  -- The chunks that say what was audited.
  abbrev pub scope_of : List Chunk → List Chunk
  scope_of cs = with_pattern (group_of groups "scope") cs

  abbrev pub pages_in : List Chunk → List ℕ
  pages_in [] = []
  pages_in (c ∷ cs) = pages_of c ++ pages_in cs

  -- The pages of the cited audit report.
  abbrev pub audit_pages : List Chunk → List ℕ
  audit_pages selected = pages_in (with_pattern (group_of groups "audit") selected)

  abbrev pub on_pages : List ℕ → Chunk → Bool
  on_pages pages c = any (λ n. contains n pages) (pages_of c)

  abbrev pub audit_context : List Chunk → List Chunk
  audit_context selected = keep (on_pages (audit_pages selected)) selected

  abbrev pub owner_of : BasisInterpretation → List Chunk → DocumentProfile
  owner_of link chunks = profile r link.linked_document chunks policy

  abbrev pub resolution_of : BasisInterpretation → String → BasisResolution
  resolution_of link how = record {
    basis = link.linked_basis;
    resolution = how;
    context = link.context_citations;
  }

  abbrev pub foreign_owner : BasisInterpretation → DocumentProfile → Bool
  foreign_owner link owner =
      owner.entity_ambiguous
      || not (is_some owner.entity_hash)
      || not (optional_text link.linked_entity owner.entity_hash)

  -- `resolve_reporting_scope`
  unfoldable pub resolve_reporting_scope :
      BasisInterpretation → List Chunk → List Chunk → ℕ → Result Raised BasisResolution
  unfolding matches profile
  resolve_reporting_scope link source selected period = do
    raise_if (foreign_owner link (owner_of link source)) entity_ambiguous_error
    raise_if (not (is_empty (matches r (joined source) policy.basis_patterns))) basis_ambiguous
    raise_if (not (link.linked_basis == "standalone")) basis_ambiguous
    raise_if (not (are_scope_groups groups)) basis_ambiguous
    raise_if (any (λ group. is_empty (with_pattern group.1 selected)) groups) basis_ambiguous
    raise_if (matches_any r policy.reporting_scope_conflicts (joined (scope_of source)))
        basis_ambiguous
    raise_if (not (only_year period (r.report_years (joined (scope_of source))))) period_ambiguous
    raise_if (not (all (on_pages (audit_pages selected)) (scope_of selected))) period_ambiguous
    raise_if
        ((owner_of link (audit_context selected)).entity_ambiguous
          || not (
              optional_text (owner_of link (audit_context selected)).entity_hash
                (owner_of link source).entity_hash))
        entity_ambiguous_error
    ok (resolution_of link "reviewer_reporting_scope")

  -- The words of the context declare the basis of the link, for its year and no other.
  abbrev pub declares_link : BasisInterpretation → ℕ → List Chunk → Bool
  declares_link link period selected =
      optional_text (sole (matches r (joined selected) policy.basis_patterns))
        (some link.linked_basis)
      && only_year period (r.report_years (joined selected))

  -- The pages of the figure state no other basis.
  abbrev pub agrees_with : String → List String → Bool
  agrees_with basis bases = is_empty bases || optional_text (sole bases) (some basis)

  unfoldable pub resolve_declaration :
      BasisInterpretation → Chunk → List Chunk → List Chunk → ℕ → Result Raised BasisResolution
  unfolding matches
  resolve_declaration link target source selected period = do
    raise_if (not (declares r policy.basis_declaration_patterns (joined selected))) basis_ambiguous
    raise_if (not (declares_link link period selected)) basis_ambiguous
    raise_if
        (not (
          agrees_with link.linked_basis
            (matches r (joined (sharing_page target source)) policy.basis_patterns)))
        basis_ambiguous
    ok (resolution_of link "reviewer_context_link")

  -- The link is for this figure, policy and period.
  abbrev pub is_stale : BasisInterpretation → Option ℕ → Bool
  is_stale link period =
      not (link.linked_policy == policy.policy_hash)
      || not (same_period (some link.linked_period) period)

  -- `resolve_interpretation`
  unfoldable pub resolve_interpretation :
      BasisInterpretation → Chunk → List Chunk → Option ℕ → Result Raised BasisResolution
  unfolding ground_citation resolve_reporting_scope resolve_declaration
  resolve_interpretation link target source period = do
    raise_if (is_stale link period) (evidence context_conflict)
    raise_if (any (of_other_document link.linked_document) source) (evidence scope_violation)
    raise_if (not (id_of target == link.target_chunk_id)) citation_ambiguous
    target_citation ← grounded link.target_citation (citations_of target)
    selected ← selected_chunks link.linked_document source link.context_citations
    if link.is_reporting_scope
        then resolve_reporting_scope link source selected link.linked_period
        else resolve_declaration link target source selected link.linked_period
