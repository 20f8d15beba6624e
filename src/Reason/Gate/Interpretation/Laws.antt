-- ===== src/Reason/Gate/Interpretation/Laws.antt =====
-- What a reviewer's link that was accepted rests on.
use fin_docs_analysis_evals.Common.{
  nat_eq, ℕ, ◌≡◌, ◌⊎◌, true, false, Option, some, List, [], any, All,
}
use fin_docs_analysis_evals.Ingest.Schema.{Provenance, Chunk, id_of}
use fin_docs_analysis_evals.Reason.Figure.{SourceCitation}
use fin_docs_analysis_evals.Reason.Gate.Policy.{EvidencePolicy}
use fin_docs_analysis_evals.Reason.Gate.Citations.Laws.{}
use fin_docs_analysis_evals.Reason.Gate.Profile.{
  Reader, joined, sole, matches, matches_any, declares,
}
use fin_docs_analysis_evals.Reason.Gate.Basis.{BasisResolution, sharing_page}
use fin_docs_analysis_evals.Reason.Gate.Sources.{BasisInterpretation}
use fin_docs_analysis_evals.Reason.Gate.Interpretation.{
  of_other_document, only_year, owner_of, scope_of, audit_context, agrees_with,
}
use fin_docs_analysis_evals.Reason.Gate.Interpretation.Context.{IsCitedBy}

module _ (r : Reader) (cite : Provenance → SourceCitation) (policy : EvidencePolicy) where
  -- The words of the cited chunks declare the basis of the link, for its year and no other.
  pub record IsDeclared (link : BasisInterpretation) (target : Chunk) (source selected : List Chunk)
      : Type 0 where
    pub heading : declares r policy.basis_declaration_patterns (joined selected) ≡ true
    pub one_basis :
        sole (matches r (joined selected) policy.basis_patterns) ≡ some link.linked_basis
    pub one_year : only_year link.linked_period (r.report_years (joined selected)) ≡ true
    pub page_agrees :
        agrees_with r cite policy link.linked_basis
          (matches r (joined (sharing_page target source)) policy.basis_patterns)
        ≡ true

  -- The report states no basis, and the cited audit report names the borrower and the year.
  pub record IsAttested (link : BasisInterpretation) (source selected : List Chunk) : Type 0 where
    pub silent : matches r (joined source) policy.basis_patterns ≡ []
    pub standalone : link.linked_basis ≡ "standalone"
    pub no_conflict :
        matches_any r policy.reporting_scope_conflicts (joined (scope_of r cite policy source))
        ≡ false
    pub scope_year :
        only_year link.linked_period (r.report_years (joined (scope_of r cite policy source)))
        ≡ true
    pub owner : link.linked_entity ≡ (owner_of r cite policy link source).entity_hash
    pub audited_owner :
        (owner_of r cite policy link (audit_context r cite policy selected)).entity_hash
        ≡ link.linked_entity

  -- What a link that was accepted rests on.
  pub record IsVerified (link : BasisInterpretation) (target : Chunk) (source : List Chunk)
      (period : Option ℕ) (result : BasisResolution) : Type 0 where
    pub of_period : period ≡ some link.linked_period
    pub of_policy : link.linked_policy ≡ policy.policy_hash
    pub of_target : id_of target ≡ link.target_chunk_id
    pub one_document : any (of_other_document link.linked_document) source ≡ false
    pub selected : List Chunk
    pub from_context :
        All (IsCitedBy r cite policy link.linked_document source link.context_citations) selected
    pub supported : IsDeclared link target source selected ⊎ IsAttested link source selected
    pub result_basis : result.basis ≡ link.linked_basis
    pub result_context : result.context ≡ link.context_citations
