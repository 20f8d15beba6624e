-- ===== src/Reason/Gate/Interpretation/Context.antt =====
-- The chunks that the citations of a reviewer's link stand for.
use fin_docs_analysis_evals.Common.{
  string_eq, nat_eq, String, ◌≡◌, refl, subst, inl, inr, true, not, ◌==◌, Option, none, some, List,
  [], ◌∷◌, All, All-append, Has, ok, bind-ok, bind-raise_if, ok_injective, arith,
}
use fin_docs_analysis_evals.Ingest.Schema.{Provenance, Chunk}
use fin_docs_analysis_evals.Reason.Exec.{evidence, scope_violation}
use fin_docs_analysis_evals.Reason.Figure.{SourceCitation}
use fin_docs_analysis_evals.Reason.Gate.Policy.{EvidencePolicy}
use fin_docs_analysis_evals.Reason.Gate.Citations.{ground_citation}
use fin_docs_analysis_evals.Reason.Gate.Citations.Laws.{
  IsGrounded, ground_citation-IsGrounded, Has-keep,
}
use fin_docs_analysis_evals.Reason.Gate.Profile.{Reader}
use fin_docs_analysis_evals.Reason.Gate.Sources.{}
use fin_docs_analysis_evals.Reason.Gate.Interpretation.{
  cites, citations_of, citations_in, or_citation_ambiguous, grounded, selected_chunks,
}

module _ (r : Reader) (cite : Provenance → SourceCitation) (policy : EvidencePolicy) where
  -- A chunk of the source that one of the citations stands for, which is of the document.
  pub record IsCitedBy (document : String) (source : List Chunk) (cs : List SourceCitation)
      (x : Chunk) : Type 0 where
    pub in_source : Has x source
    pub citation : SourceCitation
    pub given : Has citation cs
    pub of_document : citation.document_id ≡ document
    pub canonical : SourceCitation
    pub is_grounded : IsGrounded citation (citations_in r cite policy source) canonical
    pub stands_for : cites canonical (citations_of r cite policy x) ≡ true

  grounded-ok :
      (c : SourceCitation) (candidates : List SourceCitation) (best : SourceCitation)
      → grounded r cite policy c candidates ≡ ok best
      → IsGrounded c candidates best
  grounded-ok c candidates best h =
      ground_citation-IsGrounded c candidates best (by_option (ground_citation c candidates) h)
    where
      by_option :
          (o : Option SourceCitation)
          → or_citation_ambiguous r cite policy o ≡ ok best
          → o ≡ some best
      by_option none q = cc
      by_option (some b) q = cc

  module _ (document : String) (source : List Chunk) where
    IsCitedBy-later :
        (c : SourceCitation) (cs : List SourceCitation) (xs : List Chunk)
        → All (IsCitedBy document source cs) xs
        → All (IsCitedBy document source (c ∷ cs)) xs
    IsCitedBy-later c cs [] h = tt
    IsCitedBy-later c cs (x ∷ xs) h = (
      record {
        in_source = h.0.in_source;
        citation = h.0.citation;
        given = inr h.0.given;
        of_document = h.0.of_document;
        canonical = h.0.canonical;
        is_grounded = h.0.is_grounded;
        stands_for = h.0.stands_for;
      },
      IsCitedBy-later c cs xs h.1,
    )

    All-chosen :
        (c canonical : SourceCitation) (cs : List SourceCitation) (xs : List Chunk)
        → ((x : Chunk)
            → Has x xs
            → Has x source × (cites canonical (citations_of r cite policy x) ≡ true))
        → c.document_id ≡ document
        → IsGrounded c (citations_in r cite policy source) canonical
        → All (IsCitedBy document source (c ∷ cs)) xs
    All-chosen c canonical cs [] sub own g = tt
    All-chosen c canonical cs (x ∷ xs) sub own g = (
      record {
        in_source = (sub x (inl refl)).0;
        citation = c;
        given = inl refl;
        of_document = own;
        canonical = canonical;
        is_grounded = g;
        stands_for = (sub x (inl refl)).1;
      },
      All-chosen c canonical cs xs (λ y i. sub y (inr i)) own g,
    )

    pub selected_chunks-IsCitedBy :
        (cs : List SourceCitation) (selected : List Chunk)
        → selected_chunks r cite policy document source cs ≡ ok selected
        → All (IsCitedBy document source cs) selected
    selected_chunks-IsCitedBy [] selected h =
        subst (All (IsCitedBy document source [])) (ok_injective [] selected h) tt
    selected_chunks-IsCitedBy (c ∷ cs) selected h =
        let (own, k1) =
          bind-raise_if (not (c.document_id == document)) (evidence scope_violation) _ selected h in
        let (canonical, h2, k2) =
          bind-ok (grounded r cite policy c (citations_in r cite policy source)) _ selected k1 in
        let (rest, h3, k3) =
          bind-ok (selected_chunks r cite policy document source cs) _ selected k2 in
        subst (All (IsCitedBy document source (c ∷ cs))) (ok_injective _ selected k3) (
          All-append (IsCitedBy document source (c ∷ cs)) _ rest
            (All-chosen c canonical cs _
              (Has-keep (λ x. cites canonical (citations_of r cite policy x)) source)
              (ground (arith, string_eq.same_iff c.document_id document))
              (grounded-ok c _ canonical h2))
            (IsCitedBy-later c cs rest (selected_chunks-IsCitedBy cs rest h3)))
