-- ===== src/Reason/Gate/Interpretation/Offers.antt =====
-- The links that are offered for a reporting scope would be accepted.
use fin_docs_analysis_evals.Common.{
  string_eq, nat_eq, Bool, true, ◌≡◌, All, Has, some, List, Result,
}
use fin_docs_analysis_evals.Ingest.Schema.{Provenance, Chunk}
use fin_docs_analysis_evals.Reason.Exec.{Code}
use fin_docs_analysis_evals.Reason.Figure.{SourceCitation}
use fin_docs_analysis_evals.Reason.Gate.Policy.{MetricRule, EvidencePolicy}
use fin_docs_analysis_evals.Reason.Gate.Profile.{Reader}
use fin_docs_analysis_evals.Reason.Gate.Basis.{BasisResolution}
use fin_docs_analysis_evals.Reason.Gate.Sources.{BasisInterpretation, Row}
use fin_docs_analysis_evals.Reason.Gate.Interpretation.Laws.{IsVerified}

module _ (r : Reader) (cite : Provenance → SourceCitation) (same_chunk : Chunk → Chunk → Bool)
    (policy : EvidencePolicy) (rows_of : Chunk → MetricRule → Result Code (List Row)) where
  -- A link that is verified for a chunk of a source among the chunks.
  pub record IsOffered (chunks : List Chunk) (link : BasisInterpretation) : Type 0 where
    pub source : List Chunk
    pub within : All (λ c. Has c chunks) source
    pub target : Chunk
    pub in_source : Has target source
    pub result : BasisResolution
    pub verified : IsVerified r cite policy link target source (some link.linked_period) result

  -- Only a link for a reporting scope is offered as verified.
  abbrev pub IsSafe : List Chunk → BasisInterpretation → Type 0
  IsSafe chunks link = link.is_reporting_scope ≡ true → IsOffered chunks link
