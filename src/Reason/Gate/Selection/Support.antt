-- ===== src/Reason/Gate/Selection/Support.antt =====
-- The figure that `_direct` returns is supported by the chunks that it was given.
use fin_docs_analysis_evals.Common.{
  string_eq, nat_eq, ℕ, String, ◌≡◌, Bool, true, Option, some, List, [], keep, Result, ok,
}
use fin_docs_analysis_evals.Ingest.Schema.{Chunk}
use fin_docs_analysis_evals.Reason.Decimal.{Decimal}
use fin_docs_analysis_evals.Reason.Exec.{Raised}
use fin_docs_analysis_evals.Reason.Gate.Policy.{MetricRule}
use fin_docs_analysis_evals.Reason.Gate.Basis.{BasisResolution}
use fin_docs_analysis_evals.Reason.Gate.Sources.{
  BasisInterpretation, Gate, Documents, group_documents, rule_for, profiles, entity_of, is_source,
  latest_year,
}
use fin_docs_analysis_evals.Reason.Gate.Direct.{Value, Evidence}
use fin_docs_analysis_evals.Reason.Gate.Selection.Laws.{IsCited}

module _ (g : Gate) (is_whole : Decimal → Bool) (region_of : Value → Result Raised Value)
    (resolve_link : BasisInterpretation
      → Chunk
      → List Chunk
      → Option ℕ
      → Result Raised BasisResolution) where
  -- What a returned figure rests on.
  pub record IsSupported (metric : String) (chunks : List Chunk) (e : Evidence) : Type 0 where
    pub rule : MetricRule
    pub allowed : rule_for g.policy metric ≡ some rule
    pub documents : Documents
    pub grouped : group_documents chunks [] ≡ ok documents
    pub of_borrower : entity_of g (profiles g documents) ≡ ok e.entity
    pub cited : IsCited g metric e.entity chunks e
    pub newest_year :
        rule.require_period ≡ true
        → latest_year g rule documents (keep (is_source g rule) (profiles g documents))
          ≡ ok e.period
